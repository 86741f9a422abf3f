-- ===== src/Rcopy/Send.antt =====
-- sendRR, sendSREJ, the EOF ACK and the writes of project_3/rcopy.c.
use remotecopy.Base.{
  ℕ, zero, suc, ◌-◌, Bool, false, none, some, List, [], ◌∷◌, ◌++◌, take, length, ◌==◌, htonl, inc32,
}
use remotecopy.Protocol.{rr_flag, srej_flag, eof_ack_flag}
use remotecopy.Pdu.{create_pdu}
use remotecopy.Window.{increment_lower, increment_upper, increment_current}
use remotecopy.Rcopy.State.{System, Receiver}

module _ (sys : System) where
  unfoldable pub send_rr : ℕ → Receiver → Receiver
  send_rr rr_number r = record r {
    sent = create_pdu sys.in_cksum r.sequence_number rr_flag (htonl rr_number) ∷ r.sent;
    sequence_number = inc32 r.sequence_number;
  }

  unfoldable pub send_srej : ℕ → Receiver → Receiver
  send_srej srej_number r = record r {
    sent = create_pdu sys.in_cksum r.sequence_number srej_flag (htonl srej_number) ∷ r.sent;
    sequence_number = inc32 r.sequence_number;
  }

  -- `for (i = from; i < until; i++) sendSREJ(i)`, by the rounds that are left; the test is unsigned.
  unfoldable pub srej_rounds : ℕ → ℕ → Receiver → Receiver
  unfolding send_srej
  srej_rounds zero i r = r
  srej_rounds (suc n) i r = srej_rounds n (inc32 i) (send_srej i r)

  unfoldable pub send_srejs : ℕ → ℕ → Receiver → Receiver
  unfolding srej_rounds
  send_srejs from until r = srej_rounds (until - from) from r

  -- The EOF ACK has a byte of payload that is not initialised; the sequence number stays.
  unfoldable pub send_eof_ack : Receiver → Receiver
  send_eof_ack r = record r {
    sent = create_pdu sys.in_cksum r.sequence_number eof_ack_flag (sys.stack_byte ∷ []) ∷ r.sent;
  }

  -- `write`, and whether it has written all.
  unfoldable pub write : List ℕ → Receiver → Receiver × Bool
  write bytes r = elim (sys.write_output r.file bytes) [
    | none ↦ (r, false)
    | some n ↦ (record r { file = r.file ++ take n bytes }, n == length bytes)
  ]

-- The window moves up by one packet.
abbrev pub advance : Receiver → Receiver
advance r = record r { window = increment_current (increment_upper (increment_lower r.window)) }
