-- ===== src/Rcopy/Genuine.antt =====
-- What project_3/rcopy.c is sent by a server that copies a file in chunks, and what it answers.
use remotecopy.Base.{
  ℕ, ◌+◌, ◌≤◌, ◌<◌, ◌^◌, ◌≡◌, ◌≢◌, ◌⊎◌, inl, inr, some, List, [], ◌∷◌, drop, get_or, get_elem?,
  length, htonl, arith, All,
}
use remotecopy.Protocol.{eof_flag, rr_flag, srej_flag, eof_ack_flag, filename_flag}
use remotecopy.Pdu.{Pdu, fields, create_pdu, pdu_header_len}

-- A packet of the file: chunk number n under the sequence number n, or the end of file behind the
-- last chunk; the server has sent no chunk from `limit` on.
abbrev pub Genuine : List (List ℕ) → ℕ → Pdu → Type 0
Genuine chunks limit p =
    ((p.recv_flag ≢ eof_flag)
      × (get_elem? chunks p.sequence_number ≡ some p.payload)
      × (0 < length p.payload)
      × (p.sequence_number < limit))
    ⊎ ((p.recv_flag ≡ eof_flag) × (p.sequence_number ≡ length chunks) × (length chunks ≤ limit))

pub Genuine-mono :
    (chunks : List (List ℕ)) (l l' : ℕ)
    → l ≤ l'
    → (p : Pdu) → Genuine chunks l p
    → Genuine chunks l' p
Genuine-mono chunks l l' h p (inl (flag, e, pos, lt)) = inl (flag, e, pos, omega arith)
Genuine-mono chunks l l' h p (inr (flag, e, all)) = inr (flag, e, omega arith)

-- A datagram that the receiver may have sent once it has accepted the chunks below `current`, when
-- the server has sent no chunk from `limit` on.
pub data Reply (in_cksum : List ℕ → ℕ) (chunks : List (List ℕ)) (limit current : ℕ) (d : List ℕ)
    : Type 0 where
  setup :
      (seq : ℕ) (payload : List ℕ)
      → d ≡ create_pdu in_cksum seq filename_flag payload
      → Reply in_cksum chunks limit current d
  rr :
      (seq n : ℕ)
      → seq < 2 ^ 32
      → n ≤ current
      → d ≡ create_pdu in_cksum seq rr_flag (htonl n)
      → Reply in_cksum chunks limit current d
  srej :
      (seq n : ℕ)
      → seq < 2 ^ 32
      → n < limit
      → d ≡ create_pdu in_cksum seq srej_flag (htonl n)
      → Reply in_cksum chunks limit current d
  eof_ack :
      (seq b : ℕ)
      → seq < 2 ^ 32
      → length chunks ≤ current
      → d ≡ create_pdu in_cksum seq eof_ack_flag (b ∷ [])
      → Reply in_cksum chunks limit current d

module _ (in_cksum : List ℕ → ℕ) (chunks : List (List ℕ)) (l l' c c' : ℕ) (k : l ≤ l')
    (h : c ≤ c') where
  Reply-mono : (d : List ℕ) → Reply in_cksum chunks l c d → Reply in_cksum chunks l' c' d
  Reply-mono d (setup s p e) = setup s p e
  Reply-mono d (rr s n small le e) = rr s n small (omega arith) e
  Reply-mono d (srej s n small lt e) = srej s n small (omega arith) e
  Reply-mono d (eof_ack s b small le e) = eof_ack s b small (omega arith) e

  pub All-Reply-mono :
      (ds : List (List ℕ))
      → All (Reply in_cksum chunks l c) ds
      → All (Reply in_cksum chunks l' c') ds
  All-Reply-mono [] a = tt
  All-Reply-mono (d ∷ ds) a = (Reply-mono d a.0, All-Reply-mono ds a.1)

-- The places of the fields of a datagram.
pub fields_places :
    (pdu : List ℕ) (p : Pdu)
    → fields pdu ≡ some p
    → (get_or pdu 6 0 ≡ p.recv_flag)
      × (drop pdu_header_len pdu ≡ p.payload)
      × (length pdu ≡ pdu_header_len + length p.payload)
unfolding fields
fields_places (a ∷ b ∷ c ∷ d ∷ s ∷ t ∷ flag ∷ payload) p e = ground arith
fields_places _ p e = ground arith
