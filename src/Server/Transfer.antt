-- ===== src/Server/Transfer.antt =====
-- window_open, window_closed and end_of_file of project_3/server.c: loops over the outcomes of
-- `pollCall`. A datagram is received into a buffer of 11 bytes.
use remotecopy.Base.{
  ℕ, suc, ◌+◌, not, ◌&&◌, Option, none, some, List, [], ◌∷◌, take, length, ◌==◌, ltb, if◌then◌else◌,
  is_neg,
}
use remotecopy.Base.Control.{
  Event, timeout, arrives, Turn, again, leave, crash, Outcome, faulted, attempt, poll_loop, ok,
  fault, overflow,
}
use remotecopy.Protocol.{
  rr_flag, srej_flag, eof_ack_flag, rcopy_responses_packet_length, resent_srej_data_packet_flag,
  resent_timeout_data_packet_flag,
}
use remotecopy.Pdu.{Pdu, process_pdu, pdu_header_len}
use remotecopy.Window.{check_window_open}
use remotecopy.Server.State.{State, System, Sender, Patience}
use remotecopy.Server.Send.{
  send_data_packet, resend_data_packet, send_eof, process_rr, process_srej,
}

abbrev pub recv_buffer_length : ℕ
recv_buffer_length = pdu_header_len + rcopy_responses_packet_length

-- The number of timeouts in a row after which the server gives up.
abbrev pub max_tries : ℕ
max_tries = 10

module _ (sys : System) (buffer_size : ℕ) where
  -- `safeRecvfrom` and `processPDU`.
  abbrev pub receive : List ℕ → Option Pdu
  receive datagram = process_pdu sys.in_cksum (take recv_buffer_length datagram)

  -- What window_open does with the result of `read`.
  unfoldable pub use_read : Option (List ℕ) → Sender → Turn Sender State
  use_read none s = leave State.done s
  use_read (some []) s = leave State.end_of_file s
  use_read (some (b ∷ bytes)) s =
      attempt
        (send_data_packet sys (b ∷ bytes) (record s { offset = s.offset + suc (length bytes) }))
        again

  -- window_open: the loop's test, `read` and send_data_packet.
  unfoldable pub open_turn : Sender → Turn Sender State
  unfolding use_read
  open_turn s =
      if check_window_open s.window
      then (if is_neg buffer_size
          then crash overflow
          else use_read (sys.read_input s.offset buffer_size) s)
      else leave State.window_closed s

  unfoldable pub open_response : Option Pdu → Sender → Turn Sender State
  open_response none s = leave State.window_open s
  open_response (some p) s =
      if p.recv_flag == rr_flag
      then attempt (process_rr p.payload s) again
      else if p.recv_flag == srej_flag
      then attempt (process_srej sys resent_srej_data_packet_flag buffer_size p.payload s) again
      else leave State.done s

  -- window_open: `pollCall(0)` and what follows.
  unfoldable pub open_answer : Event → Sender → Turn Sender State
  unfolding open_response
  open_answer timeout s = again s
  open_answer (arrives datagram) s = open_response (receive datagram) s

  unfoldable pub window_open : List Event → Sender → Outcome Sender State
  window_open = poll_loop open_turn open_answer

  -- window_closed: the loop's test, and the test of the count behind the loop.
  unfoldable pub closed_turn : Patience → Turn Patience State
  closed_turn w =
      if not (check_window_open w.sender.window) && ltb w.count max_tries
      then again w
      else leave (if w.count == max_tries then State.done else State.window_open) w

  -- The lowest packet is sent again after a timeout.
  unfoldable pub resend_lowest : Patience → Turn Patience State
  resend_lowest w =
      attempt
        (resend_data_packet sys w.sender.window.lower resent_timeout_data_packet_flag buffer_size
          w.sender)
        (λ s. again (record { sender = s; count = w.count + 1 }))

  unfoldable pub closed_response : Option Pdu → Patience → Turn Patience State
  closed_response none w = leave State.window_closed w
  closed_response (some p) w =
      if p.recv_flag == rr_flag
      then attempt (process_rr p.payload w.sender)
          (λ s. leave State.window_open (record { sender = s; count = 0 }))
      else if p.recv_flag == srej_flag
      then attempt (process_srej sys resent_srej_data_packet_flag buffer_size p.payload w.sender)
          (λ s. again (record { sender = s; count = 0 }))
      else leave State.done w

  -- window_closed: `pollCall(ONE_SEC)` and what follows.
  unfoldable pub closed_answer : Event → Patience → Turn Patience State
  unfolding closed_response resend_lowest
  closed_answer timeout w = resend_lowest w
  closed_answer (arrives datagram) w = closed_response (receive datagram) w

  unfoldable pub window_closed : List Event → Sender → Outcome Patience State
  window_closed es s = poll_loop closed_turn closed_answer es (record { sender = s; count = 0 })

  -- end_of_file: the loop's test.
  unfoldable pub eof_turn : Patience → Turn Patience State
  eof_turn w = if ltb w.count max_tries then again w else leave State.done w

  unfoldable pub eof_response : Option Pdu → Patience → Turn Patience State
  eof_response none w = again (record w { count = 0 })
  eof_response (some p) w =
      if p.recv_flag == rr_flag
      then attempt (process_rr p.payload w.sender) (λ s. again (record { sender = s; count = 0 }))
      else if p.recv_flag == srej_flag
      then attempt (process_srej sys resent_srej_data_packet_flag buffer_size p.payload w.sender)
          (λ s. again (record { sender = s; count = 0 }))
      else if p.recv_flag == eof_ack_flag
      then leave State.done w
      else leave State.done w

  unfoldable pub eof_answer : Event → Patience → Turn Patience State
  unfolding eof_response resend_lowest
  eof_answer timeout w = resend_lowest w
  eof_answer (arrives datagram) w = eof_response (receive datagram) w

  unfoldable pub end_of_file : List Event → Sender → Outcome Patience State
  end_of_file es s = elim (send_eof sys s) [
    | fault f ↦ faulted f
    | ok s' ↦ poll_loop eof_turn eof_answer es (record { sender = s'; count = 0 })
  ]
