-- ===== src/Session/States/Client.antt =====
-- The states for which in_order, buffering and flush of project_3/rcopy.c are left.
use remotecopy.Base.{
  ℕ, zero, suc, Bool, true, false, Option, none, some, List, drop, leb, ltb, get_or, length, ◌==◌,
}
use remotecopy.Base.Control.{Event, timeout, arrives, Turn, again, leave, crash}
use remotecopy.Protocol.{eof_flag, recv_flag_location}
use remotecopy.Pdu.{Pdu, process_pdu, pdu_header_len}
use remotecopy.Window.{add_pdu, check_pdu_valid, get_pdu, remove_pdu}
use remotecopy.Rcopy.State as Rcopy
use remotecopy.Rcopy.State.{Receiver}
use remotecopy.Rcopy.Send.{write, send_srejs}
use remotecopy.Rcopy.Transfer.{
  with_highest, with_window, room, accept, received, room, in_order_expected, in_order_ahead,
  in_order_response, in_order_answer, in_order, buffering_ahead, buffering_expected,
  buffering_response, buffering_answer, buffering, flush_next, flush_pdu, flush_read, flush_turn,
  flush_again, flush_rounds, flush,
}
use remotecopy.Session.States.{LeftFor, EndsIn, if-LeftFor, attempt-LeftFor, loop-EndsIn}

-- The states of a transfer.
abbrev pub OfClient : Rcopy.State → Type 0
OfClient Rcopy.State.start = ⊥
OfClient Rcopy.State.filename = ⊥
OfClient Rcopy.State.file_okay = ⊥
OfClient _ = Unit {0}

module _ (sys : Rcopy.System) (buffer_size : ℕ) where
  accept-LeftFor :
      (next : Rcopy.State) (mark : Receiver → Receiver) (t : Receiver × Bool)
      → OfClient next
      → LeftFor OfClient (accept sys buffer_size next mark t)
  unfolding accept
  accept-LeftFor next mark (r, true) h = LeftFor.left h
  accept-LeftFor next mark (r, false) h = LeftFor.left tt

  in_order_expected-LeftFor :
      (p : Pdu) (r : Receiver) → LeftFor OfClient (in_order_expected sys buffer_size p r)
  unfolding in_order_expected
  in_order_expected-LeftFor p r =
      if-LeftFor OfClient (p.recv_flag == eof_flag) _ _ (LeftFor.left tt) (
        if-LeftFor OfClient (length p.payload == 0) _ _ (LeftFor.left tt) (
          accept-LeftFor Rcopy.State.in_order (with_highest p.sequence_number)
            (write sys p.payload r) tt))

  in_order_ahead-LeftFor :
      (buffer : List ℕ) (seq : ℕ) (r : Receiver)
      → LeftFor OfClient (in_order_ahead sys buffer_size buffer seq r)
  unfolding in_order_ahead
  in_order_ahead-LeftFor buffer seq r =
      let r' = with_highest seq (send_srejs sys r.window.current seq r) in
      attempt-LeftFor OfClient (add_pdu r'.window buffer seq)
        (λ w. leave Rcopy.State.buffering (with_window r' w)) (λ w. LeftFor.left tt)

  in_order_response-LeftFor :
      (buffer : List ℕ) (o : Option Pdu) (r : Receiver)
      → LeftFor OfClient (in_order_response sys buffer_size buffer o r)
  unfolding in_order_response
  in_order_response-LeftFor buffer none r = LeftFor.left tt
  in_order_response-LeftFor buffer (some p) r =
      if-LeftFor OfClient (leb r.window.current p.sequence_number) _ _
        (if-LeftFor OfClient (p.sequence_number == r.window.current) _ _
          (in_order_expected-LeftFor p r) (in_order_ahead-LeftFor buffer p.sequence_number r))
        (LeftFor.left tt)

  in_order_answer-LeftFor :
      (e : Event) (r : Receiver) → LeftFor OfClient (in_order_answer sys buffer_size e r)
  unfolding in_order_answer
  in_order_answer-LeftFor timeout r = LeftFor.left tt
  in_order_answer-LeftFor (arrives d) r =
      in_order_response-LeftFor (received sys buffer_size d)
        (process_pdu sys.in_cksum (received sys buffer_size d)) r

  buffering_ahead-LeftFor :
      (buffer : List ℕ) (seq : ℕ) (r : Receiver)
      → LeftFor OfClient (buffering_ahead sys buffer_size buffer seq r)
  unfolding buffering_ahead
  buffering_ahead-LeftFor buffer seq r =
      attempt-LeftFor OfClient (add_pdu r.window buffer seq) _ (λ w. LeftFor.goes)

  buffering_expected-LeftFor :
      (p : Pdu) (r : Receiver) → LeftFor OfClient (buffering_expected sys buffer_size p r)
  unfolding buffering_expected
  buffering_expected-LeftFor p r = if-LeftFor OfClient (p.recv_flag == eof_flag) _ _ LeftFor.goes (
      if-LeftFor OfClient (length p.payload == 0) _ _
        (accept-LeftFor Rcopy.State.flush (λ r'. r') (r, true) tt)
        (accept-LeftFor Rcopy.State.flush (λ r'. r') (write sys p.payload r) tt))

  buffering_response-LeftFor :
      (buffer : List ℕ) (o : Option Pdu) (r : Receiver)
      → LeftFor OfClient (buffering_response sys buffer_size buffer o r)
  unfolding buffering_response
  buffering_response-LeftFor buffer none r = LeftFor.goes
  buffering_response-LeftFor buffer (some p) r =
      if-LeftFor OfClient (ltb r.window.current p.sequence_number) _ _
        (buffering_ahead-LeftFor buffer p.sequence_number r)
        (if-LeftFor OfClient (p.sequence_number == r.window.current) _ _
          (buffering_expected-LeftFor p r) LeftFor.goes)

  buffering_answer-LeftFor :
      (e : Event) (r : Receiver) → LeftFor OfClient (buffering_answer sys buffer_size e r)
  unfolding buffering_answer
  buffering_answer-LeftFor timeout r = LeftFor.left tt
  buffering_answer-LeftFor (arrives d) r =
      buffering_response-LeftFor (received sys buffer_size d)
        (process_pdu sys.in_cksum (received sys buffer_size d)) r

  flush_next-LeftFor : (t : Receiver × Bool) → LeftFor OfClient (flush_next sys buffer_size t)
  unfolding flush_next
  flush_next-LeftFor (r, false) = LeftFor.left tt
  flush_next-LeftFor (r, true) =
      attempt-LeftFor OfClient (remove_pdu r.window r.window.current) _
        (λ w. if-LeftFor OfClient _ _ _ (LeftFor.left tt) LeftFor.goes)

  flush_read-LeftFor :
      (r : Receiver) (o : Option (List ℕ)) → LeftFor OfClient (flush_read sys buffer_size r o)
  unfolding flush_pdu
  flush_read-LeftFor r none = LeftFor.breaks
  flush_read-LeftFor r (some pdu) =
      if-LeftFor OfClient (get_or pdu recv_flag_location 0 == eof_flag) _ _ (LeftFor.left tt) (
        if-LeftFor OfClient (length pdu == 0) _ _ (flush_next-LeftFor (r, true))
          (flush_next-LeftFor (write sys (drop pdu_header_len pdu) r)))

  flush_turn-LeftFor : (r : Receiver) → LeftFor OfClient (flush_turn sys buffer_size r)
  unfolding flush_turn
  flush_turn-LeftFor r =
      attempt-LeftFor OfClient (check_pdu_valid r.window r.window.current) _ (λ valid.
        if-LeftFor OfClient valid _ _
          (attempt-LeftFor OfClient (get_pdu r.window (room sys buffer_size) r.window.current) _
            (flush_read-LeftFor r))
          (LeftFor.left tt))

  again-LeftFor :
      (k : Receiver → Turn Receiver Rcopy.State) (t : Turn Receiver Rcopy.State)
      → ((r : Receiver) → LeftFor OfClient (k r))
      → LeftFor OfClient t
      → LeftFor OfClient (flush_again sys buffer_size k t)
  again-LeftFor k (again r) h i = h r
  again-LeftFor k (leave st r) h i = i
  again-LeftFor k (crash f) h i = LeftFor.breaks

  flush_rounds-LeftFor :
      (n : ℕ) (r : Receiver) → LeftFor OfClient (flush_rounds sys buffer_size n r)
  unfolding flush_rounds
  flush_rounds-LeftFor zero r = LeftFor.breaks
  flush_rounds-LeftFor (suc n) r = again-LeftFor _ _ (flush_rounds-LeftFor n) (flush_turn-LeftFor r)

  pub flush-LeftFor : (r : Receiver) → LeftFor OfClient (flush sys buffer_size r)
  unfolding flush
  flush-LeftFor r = flush_rounds-LeftFor (suc r.window.window_size) r

  pub in_order-EndsIn :
      (es : List Event) (r : Receiver) → EndsIn OfClient (in_order sys buffer_size es r)
  unfolding in_order
  in_order-EndsIn = loop-EndsIn OfClient _ _ (λ r. LeftFor.goes) in_order_answer-LeftFor

  pub buffering-EndsIn :
      (es : List Event) (r : Receiver) → EndsIn OfClient (buffering sys buffer_size es r)
  unfolding buffering
  buffering-EndsIn = loop-EndsIn OfClient _ _ (λ r. LeftFor.goes) buffering_answer-LeftFor
