-- ===== src/Rcopy/Transfer.antt =====
-- in_order, buffering and flush of project_3/rcopy.c. A datagram is received into a buffer of
-- `buffer_size` bytes behind a header.
use remotecopy.Base.{
  ℕ, zero, suc, ◌+◌, Bool, true, false, Option, none, some, List, take, drop, get_or, length, ◌==◌,
  ltb, leb, if◌then◌else◌, slt, inc32,
}
use remotecopy.Base.Control.{
  Event, timeout, arrives, Turn, again, leave, crash, Outcome, attempt, poll_loop, uninitialised,
  endless,
}
use remotecopy.Protocol.{eof_flag, recv_flag_location}
use remotecopy.Pdu.{Pdu, process_pdu, pdu_header_len}
use remotecopy.Window.{WindowArray, update_highest, add_pdu, get_pdu, remove_pdu, check_pdu_valid}
use remotecopy.Rcopy.State.{State, System, Receiver}
use remotecopy.Rcopy.Send.{send_rr, send_srejs, send_eof_ack, write, advance}

-- `max` of rcopy.h, between an `int` and an `uint32_t`: unsigned.
abbrev pub max : ℕ → ℕ → ℕ
max a b = if ltb b a then a else b

abbrev pub with_highest : ℕ → Receiver → Receiver
with_highest n r = record r { window = update_highest r.window n }

abbrev pub with_window : Receiver → WindowArray → Receiver
with_window r w = record r { window = w }

module _ (sys : System) (buffer_size : ℕ) where
  abbrev pub room : ℕ
  room = pdu_header_len + buffer_size

  -- What `safeRecvfrom` leaves in the buffer.
  abbrev pub received : List ℕ → List ℕ
  received datagram = take room datagram

  abbrev pub send_current_rr : Receiver → Receiver
  send_current_rr r = send_rr sys r.window.current r

  -- After the bytes of the current packet have been written: `mark`, then the window moves up,
  -- and the new current packet is asked for.
  unfoldable pub accept : State → (Receiver → Receiver) → Receiver × Bool → Turn Receiver State
  accept next mark (r, false) = leave State.done r
  accept next mark (r, true) = leave next (send_current_rr (advance (mark r)))

  -- in_order: the packet that is expected.
  unfoldable pub in_order_expected : Pdu → Receiver → Turn Receiver State
  unfolding accept
  in_order_expected p r =
      if p.recv_flag == eof_flag
      then leave State.done (send_eof_ack sys r)
      else if length p.payload == 0
      then leave State.done r
      else accept State.in_order (with_highest p.sequence_number) (write sys p.payload r)

  -- in_order: a packet beyond the one expected. `buffer` is the whole datagram.
  unfoldable pub in_order_ahead : List ℕ → ℕ → Receiver → Turn Receiver State
  in_order_ahead buffer seq r =
      let r' = with_highest seq (send_srejs sys r.window.current seq r) in
      attempt (add_pdu r'.window buffer seq) (λ w. leave State.buffering (with_window r' w))

  unfoldable pub in_order_response : List ℕ → Option Pdu → Receiver → Turn Receiver State
  unfolding in_order_expected in_order_ahead
  in_order_response buffer none r = leave State.in_order r
  in_order_response buffer (some p) r =
      if leb r.window.current p.sequence_number
      then (if p.sequence_number == r.window.current
          then in_order_expected p r
          else in_order_ahead buffer p.sequence_number r)
      else leave State.in_order (send_rr sys r.window.lower r)

  unfoldable pub in_order_answer : Event → Receiver → Turn Receiver State
  unfolding in_order_response
  in_order_answer timeout r = leave State.done r
  in_order_answer (arrives datagram) r =
      in_order_response (received datagram) (process_pdu sys.in_cksum (received datagram)) r

  -- One `pollCall(TEN_SEC)`.
  unfoldable pub in_order : List Event → Receiver → Outcome Receiver State
  in_order = poll_loop again in_order_answer

  -- buffering: a packet beyond the current one is stored, and the packets between the highest one
  -- so far and it are asked for.
  unfoldable pub ask_between : ℕ → Receiver → Receiver
  ask_between seq r =
      if ltb r.window.highest seq then send_srejs sys (inc32 r.window.highest) seq r else r

  unfoldable pub buffering_ahead : List ℕ → ℕ → Receiver → Turn Receiver State
  unfolding ask_between
  buffering_ahead buffer seq r = attempt (add_pdu r.window buffer seq) λ w.
      let r' = ask_between seq (with_window r w) in
      again (with_highest (max r'.window.highest seq) r')

  -- buffering: the current packet. An end of file is ignored, and nothing is written for a packet
  -- without payload.
  unfoldable pub buffering_expected : Pdu → Receiver → Turn Receiver State
  unfolding accept
  buffering_expected p r =
      if p.recv_flag == eof_flag
      then again r
      else if length p.payload == 0
      then accept State.flush (λ r'. r') (r, true)
      else accept State.flush (λ r'. r') (write sys p.payload r)

  unfoldable pub buffering_response : List ℕ → Option Pdu → Receiver → Turn Receiver State
  unfolding buffering_ahead buffering_expected
  buffering_response buffer none r = again r
  buffering_response buffer (some p) r =
      if ltb r.window.current p.sequence_number
      then buffering_ahead buffer p.sequence_number r
      else if p.sequence_number == r.window.current
      then buffering_expected p r
      else again (send_current_rr r)

  unfoldable pub buffering_answer : Event → Receiver → Turn Receiver State
  unfolding buffering_response
  buffering_answer timeout r = leave State.done r
  buffering_answer (arrives datagram) r =
      buffering_response (received datagram) (process_pdu sys.in_cksum (received datagram)) r

  unfoldable pub buffering : List Event → Receiver → Outcome Receiver State
  buffering = poll_loop again buffering_answer

  -- flush: the end of one round, once the packet has been written.
  unfoldable pub flush_next : Receiver × Bool → Turn Receiver State
  flush_next (r, false) = leave State.done r
  flush_next (r, true) = attempt (remove_pdu r.window r.window.current) λ w.
      let r' = send_current_rr (advance (with_window r w)) in
      if slt r'.window.highest r'.window.current then leave State.in_order r' else again r'

  -- flush: one round with the packet `pdu` from the window. An end of file ends the program.
  unfoldable pub flush_pdu : List ℕ → Receiver → Turn Receiver State
  unfolding flush_next
  flush_pdu pdu r =
      if get_or pdu recv_flag_location 0 == eof_flag
      then leave State.done (send_eof_ack sys r)
      else if length pdu == 0
      then flush_next (r, true)
      else flush_next (write sys (drop pdu_header_len pdu) r)

  -- `none`, the result -1 of get_PDU, leaves the buffer as it was: uninitialised.
  abbrev pub flush_read : Receiver → Option (List ℕ) → Turn Receiver State
  flush_read r none = crash uninitialised
  flush_read r (some pdu) = flush_pdu pdu r

  unfoldable pub flush_turn : Receiver → Turn Receiver State
  unfolding flush_pdu
  flush_turn r = attempt (check_pdu_valid r.window r.window.current) λ valid.
      if valid
      then attempt (get_pdu r.window room r.window.current) (flush_read r)
      else leave State.buffering r

  abbrev pub flush_again :
      (Receiver → Turn Receiver State) → Turn Receiver State → Turn Receiver State
  flush_again k (again r) = k r
  flush_again k (leave st r) = leave st r
  flush_again k (crash f) = crash f

  -- The loop of flush, for at most the given number of rounds.
  unfoldable pub flush_rounds : ℕ → Receiver → Turn Receiver State
  unfolding flush_turn
  flush_rounds zero r = crash endless
  flush_rounds (suc n) r = flush_again (flush_rounds n) (flush_turn r)

  -- Each round empties one slot of the window.
  unfoldable pub flush : Receiver → Turn Receiver State
  unfolding flush_rounds
  flush r = flush_rounds (suc r.window.window_size) r
