-- ===== src/Session/States.antt =====
-- The states for which a loop of project_3/server.c or project_3/rcopy.c is left.
pub mod Child
pub mod Client
use remotecopy.Base.{
  ℕ, zero, suc, Bool, true, false, Option, none, some, List, [], ◌∷◌, if◌then◌else◌, drop, leb, ltb,
  get_or, length, ◌==◌,
}
use remotecopy.Base.Control.{
  Event, timeout, arrives, Turn, again, leave, crash, Outcome, returned, waiting, faulted, Result,
  ok, fault, attempt, poll_loop, finish, Fault,
}
use remotecopy.Protocol.{
  eof_flag, recv_flag_location, rr_flag, srej_flag, eof_ack_flag, resent_srej_data_packet_flag,
}
use remotecopy.Pdu.{Pdu, process_pdu, pdu_header_len}
use remotecopy.Window.{add_pdu, check_pdu_valid, get_pdu, remove_pdu}
use remotecopy.Server.State as Server
use remotecopy.Server.State.{Sender, Patience}
use remotecopy.Server.Send.{send_eof, process_rr, process_srej}
use remotecopy.Server.Transfer.{
  use_read, open_turn, open_response, open_answer, window_open, closed_turn, resend_lowest,
  closed_response, closed_answer, window_closed, max_tries, eof_turn, eof_response, eof_answer,
  end_of_file, receive,
}
use remotecopy.Rcopy.State as Rcopy
use remotecopy.Rcopy.State.{Receiver}
use remotecopy.Rcopy.Send.{write, send_srejs}
use remotecopy.Rcopy.Transfer.{
  with_highest, with_window, room, accept, received, room, in_order_expected, in_order_ahead,
  in_order_response, in_order_answer, in_order, buffering_ahead, buffering_expected,
  buffering_response, buffering_answer, buffering, flush_next, flush_pdu, flush_read, flush_turn,
  flush_again, flush_rounds, flush,
}

-- A turn is left for a state of `I` only.
pub data LeftFor {W A : Type 0} (I : A → Type 0) : Turn W A → Type 0 where
  goes : {w : W} → LeftFor I (again w)
  left : {a : A} {w : W} → I a → LeftFor I (leave a w)
  breaks : {f : Fault} → LeftFor I (crash f)

module _ {W A : Type 0} (I : A → Type 0) where
  abbrev pub EndsIn : Outcome W A → Type 0
  EndsIn (returned a es w) = I a
  EndsIn (waiting w) = Unit {0}
  EndsIn (faulted f) = Unit {0}

  pub if-LeftFor :
      (b : Bool) (t u : Turn W A) → LeftFor I t → LeftFor I u → LeftFor I (if b then t else u)
  if-LeftFor true t u h k = h
  if-LeftFor false t u h k = k

  pub attempt-LeftFor :
      {B : Type 0} (r : Result B) (k : B → Turn W A)
      → ((b : B) → LeftFor I (k b))
      → LeftFor I (attempt r k)
  attempt-LeftFor (ok b) k h = h b
  attempt-LeftFor (fault f) k h = LeftFor.breaks

  finish-EndsIn :
      (es : List Event) (k : W → Outcome W A) (t : Turn W A)
      → LeftFor I t
      → ((w : W) → EndsIn (k w))
      → EndsIn (finish es k t)
  finish-EndsIn es k (again w) LeftFor.goes h = h w
  finish-EndsIn es k (leave a w) (LeftFor.left i) h = i
  finish-EndsIn es k (crash f) LeftFor.breaks h = tt

  pub loop-EndsIn :
      (before : W → Turn W A) (on : Event → W → Turn W A)
      → ((w : W) → LeftFor I (before w))
      → ((e : Event) (w : W) → LeftFor I (on e w))
      → (es : List Event) (w : W) → EndsIn (poll_loop before on es w)
  unfolding poll_loop
  loop-EndsIn before on first second [] w = finish-EndsIn [] waiting (before w) (first w) (λ w'. tt)
  loop-EndsIn before on first second (e ∷ es) w =
      finish-EndsIn (e ∷ es) _ (before w) (first w) (λ w'.
        finish-EndsIn es (poll_loop before on es) (on e w') (second e w')
          (loop-EndsIn before on first second es))
