-- ===== src/Server/Send.antt =====
-- send_data_packet, resend_data_packet, send_eof and cleaning_up_with_RR of project_3/server.c.
use remotecopy.Base.{
  ℕ, zero, suc, ◌+◌, ◌-◌, ◌%◌, ◌^◌, none, some, List, [], ◌∷◌, drop, get_or, ◌==◌, if◌then◌else◌,
  slt, ntohl,
}
use remotecopy.Base.Control.{Result, ok, fault, ◌>>=◌, uninitialised}
use remotecopy.Protocol.{data_packet_flag, eof_flag, recv_flag_location}
use remotecopy.Pdu.{create_pdu, pdu_header_len}
use remotecopy.Window.{
  WindowArray, get_pdu, add_pdu, remove_pdu, increment_lower, increment_upper, increment_current,
}
use remotecopy.Server.State.{System, Sender}

-- `safeSendto`: the datagram is handed to the network library.
abbrev pub safe_sendto : List ℕ → Sender → Sender
safe_sendto pdu s = record s { sent = pdu ∷ s.sent }

-- A packet of the window is made for the current sequence number, sent and stored.
unfoldable pub send_data_packet : System → List ℕ → Sender → Result Sender
send_data_packet sys payload s =
    let pdu = create_pdu sys.in_cksum s.window.current data_packet_flag payload in
    add_pdu s.window pdu s.window.current >>= λ w.
    ok (record s { window = increment_current w; sent = pdu ∷ s.sent })

-- The flag of a data packet becomes `flag`; that of an end of file is kept.
abbrev pub resent_flag : ℕ → ℕ → ℕ
resent_flag received flag = if received == data_packet_flag then flag else received

-- If the slot is empty, the code goes on with a buffer that nothing was written to, and a length of
-- -1 - 7 bytes: it reads its flag uninitialised.
unfoldable pub resend_data_packet : System → ℕ → ℕ → ℕ → Sender → Result Sender
resend_data_packet sys seq flag buffer_size s =
    get_pdu s.window (pdu_header_len + buffer_size) seq >>= λ stored. elim stored [
      | none ↦ fault uninitialised
      | some pdu ↦ ok (
          safe_sendto
            (create_pdu sys.in_cksum seq (resent_flag (get_or pdu recv_flag_location 0) flag)
              (drop pdu_header_len pdu))
            s)
    ]

-- The one byte of payload is not initialised. The current sequence number stays.
unfoldable pub send_eof : System → Sender → Result Sender
send_eof sys s =
    let pdu = create_pdu sys.in_cksum s.window.current eof_flag (sys.stack_byte ∷ []) in
    add_pdu s.window pdu s.window.current >>= λ w. ok (record s { window = w; sent = pdu ∷ s.sent })

-- The loop of cleaning_up_with_RR, for at most the given number of rounds.
unfoldable pub cleaning : ℕ → ℕ → WindowArray → Result WindowArray
cleaning zero rr w = ok w
cleaning (suc n) rr w =
    if slt w.lower rr
    then (remove_pdu w w.lower >>= λ w'. cleaning n rr (increment_upper (increment_lower w')))
    else ok w

-- `rr - lower` between `int32_t`s, and 0 where that is negative.
abbrev pub distance : ℕ → ℕ → ℕ
distance lower rr = (rr + 2 ^ 31) % 2 ^ 32 - (lower + 2 ^ 31) % 2 ^ 32

unfoldable pub cleaning_up_with_rr : ℕ → WindowArray → Result WindowArray
unfolding cleaning
cleaning_up_with_rr rr w = cleaning (distance w.lower rr) rr w

-- `memcpy` of four bytes of the payload, and `ntohl`.
unfoldable pub read_number : List ℕ → Result ℕ
read_number (a ∷ b ∷ c ∷ d ∷ _) = ok (ntohl a b c d)
read_number _ = fault uninitialised

-- The answer to a RR.
unfoldable pub process_rr : List ℕ → Sender → Result Sender
process_rr payload s = read_number payload >>= λ rr.
    cleaning_up_with_rr rr s.window >>= λ w. ok (record s { window = w })

-- The answer to a SREJ.
unfoldable pub process_srej : System → ℕ → ℕ → List ℕ → Sender → Result Sender
process_srej sys flag buffer_size payload s =
    read_number payload >>= λ srej. resend_data_packet sys srej flag buffer_size s
