-- ===== src/Session/States/Child.antt =====
-- The states for which window_open, window_closed and end_of_file of project_3/server.c are left.
use remotecopy.Base.{ℕ, Bool, true, false, Option, none, some, List, [], ◌∷◌, if◌then◌else◌, ◌==◌}
use remotecopy.Base.Control.{Event, timeout, arrives, again, faulted, Result, ok, fault, poll_loop}
use remotecopy.Protocol.{rr_flag, srej_flag, eof_ack_flag, resent_srej_data_packet_flag}
use remotecopy.Pdu.{Pdu}
use remotecopy.Server.State as Server
use remotecopy.Server.State.{Sender, Patience}
use remotecopy.Server.Send.{send_eof, process_rr, process_srej}
use remotecopy.Server.Transfer.{
  use_read, open_turn, open_response, open_answer, window_open, closed_turn, resend_lowest,
  closed_response, closed_answer, window_closed, max_tries, eof_turn, eof_response, eof_answer,
  end_of_file, receive,
}
use remotecopy.Session.States.{LeftFor, EndsIn, if-LeftFor, attempt-LeftFor, loop-EndsIn}

-- The states of a transfer.
abbrev pub OfChild : Server.State → Type 0
OfChild Server.State.start = ⊥
OfChild Server.State.filename = ⊥
OfChild _ = Unit {0}

module _ (sys : Server.System) (buffer_size : ℕ) where
  use_read-LeftFor :
      (o : Option (List ℕ)) (s : Sender) → LeftFor OfChild (use_read sys buffer_size o s)
  unfolding use_read
  use_read-LeftFor none s = LeftFor.left tt
  use_read-LeftFor (some []) s = LeftFor.left tt
  use_read-LeftFor (some (b ∷ bytes)) s = attempt-LeftFor OfChild _ again (λ s'. LeftFor.goes)

  open_turn-LeftFor : (s : Sender) → LeftFor OfChild (open_turn sys buffer_size s)
  unfolding open_turn
  open_turn-LeftFor s =
      if-LeftFor OfChild _ _ _ (if-LeftFor OfChild _ _ _ LeftFor.breaks (use_read-LeftFor _ s))
        (LeftFor.left tt)

  open_response-LeftFor :
      (o : Option Pdu) (s : Sender) → LeftFor OfChild (open_response sys buffer_size o s)
  unfolding open_response
  open_response-LeftFor none s = LeftFor.left tt
  open_response-LeftFor (some p) s =
      if-LeftFor OfChild (p.recv_flag == rr_flag) _ _
        (attempt-LeftFor OfChild (process_rr p.payload s) again (λ s'. LeftFor.goes))
        (if-LeftFor OfChild (p.recv_flag == srej_flag) _ _
          (attempt-LeftFor OfChild
            (process_srej sys resent_srej_data_packet_flag buffer_size p.payload s) again
            (λ s'. LeftFor.goes))
          (LeftFor.left tt))

  open_answer-LeftFor : (e : Event) (s : Sender) → LeftFor OfChild (open_answer sys buffer_size e s)
  unfolding open_answer
  open_answer-LeftFor timeout s = LeftFor.goes
  open_answer-LeftFor (arrives d) s = open_response-LeftFor (receive sys buffer_size d) s

  closed_turn-LeftFor : (w : Patience) → LeftFor OfChild (closed_turn sys buffer_size w)
  unfolding closed_turn
  closed_turn-LeftFor w =
      if-LeftFor OfChild _ _ _ LeftFor.goes (LeftFor.left (gave_up (w.count == max_tries)))
    where
      gave_up : (b : Bool) → OfChild (if b then Server.State.done else Server.State.window_open)
      gave_up true = tt
      gave_up false = tt

  closed_response-LeftFor :
      (o : Option Pdu) (w : Patience) → LeftFor OfChild (closed_response sys buffer_size o w)
  unfolding closed_response resend_lowest
  closed_response-LeftFor none w = LeftFor.left tt
  closed_response-LeftFor (some p) w =
      if-LeftFor OfChild (p.recv_flag == rr_flag) _ _
        (attempt-LeftFor OfChild (process_rr p.payload w.sender) _ (λ s'. LeftFor.left tt))
        (if-LeftFor OfChild (p.recv_flag == srej_flag) _ _
          (attempt-LeftFor OfChild
            (process_srej sys resent_srej_data_packet_flag buffer_size p.payload w.sender) _
            (λ s'. LeftFor.goes))
          (LeftFor.left tt))

  closed_answer-LeftFor :
      (e : Event) (w : Patience) → LeftFor OfChild (closed_answer sys buffer_size e w)
  unfolding closed_answer
  closed_answer-LeftFor timeout w = attempt-LeftFor OfChild _ _ (λ s. LeftFor.goes)
  closed_answer-LeftFor (arrives d) w = closed_response-LeftFor (receive sys buffer_size d) w

  eof_turn-LeftFor : (w : Patience) → LeftFor OfChild (eof_turn sys buffer_size w)
  unfolding eof_turn
  eof_turn-LeftFor w = if-LeftFor OfChild _ _ _ LeftFor.goes (LeftFor.left tt)

  eof_response-LeftFor :
      (o : Option Pdu) (w : Patience) → LeftFor OfChild (eof_response sys buffer_size o w)
  unfolding eof_response resend_lowest
  eof_response-LeftFor none w = LeftFor.goes
  eof_response-LeftFor (some p) w =
      if-LeftFor OfChild (p.recv_flag == rr_flag) _ _
        (attempt-LeftFor OfChild (process_rr p.payload w.sender) _ (λ s'. LeftFor.goes))
        (if-LeftFor OfChild (p.recv_flag == srej_flag) _ _
          (attempt-LeftFor OfChild
            (process_srej sys resent_srej_data_packet_flag buffer_size p.payload w.sender) _
            (λ s'. LeftFor.goes))
          (if-LeftFor OfChild (p.recv_flag == eof_ack_flag) _ _ (LeftFor.left tt)
            (LeftFor.left tt)))

  eof_answer-LeftFor : (e : Event) (w : Patience) → LeftFor OfChild (eof_answer sys buffer_size e w)
  unfolding eof_answer
  eof_answer-LeftFor timeout w = attempt-LeftFor OfChild _ _ (λ s. LeftFor.goes)
  eof_answer-LeftFor (arrives d) w = eof_response-LeftFor (receive sys buffer_size d) w

  pub window_open-EndsIn :
      (es : List Event) (s : Sender) → EndsIn OfChild (window_open sys buffer_size es s)
  unfolding window_open
  window_open-EndsIn = loop-EndsIn OfChild _ _ open_turn-LeftFor open_answer-LeftFor

  pub window_closed-EndsIn :
      (es : List Event) (s : Sender) → EndsIn OfChild (window_closed sys buffer_size es s)
  unfolding window_closed
  window_closed-EndsIn es s = loop-EndsIn OfChild _ _ closed_turn-LeftFor closed_answer-LeftFor es _

  pub end_of_file-EndsIn :
      (es : List Event) (s : Sender) → EndsIn OfChild (end_of_file sys buffer_size es s)
  unfolding end_of_file
  end_of_file-EndsIn es s = by_send (send_eof sys s)
    where
      by_send :
          (r : Result Sender)
          → EndsIn OfChild (elim r [
            | fault f ↦ faulted f
            | ok s' ↦
                poll_loop
                  (eof_turn sys buffer_size)
                  (eof_answer sys buffer_size)
                  es
                  (record { sender = s'; count = 0 })
          ])
      by_send (fault f) = tt
      by_send (ok s') = loop-EndsIn OfChild _ _ eof_turn-LeftFor eof_answer-LeftFor es _
