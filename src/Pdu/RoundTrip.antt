-- ===== src/Pdu/RoundTrip.antt =====
-- createPDU against processPDU (project_3/pdu.c).
use remotecopy.Base.{
  ℕ, ◌+◌, ◌<◌, ◌≤◌, ◌^◌, ◌≡◌, refl, ap, ◌⊎◌, ◌↔◌, none, some, List, ◌∷◌, length, ◌≢◌, arith, le→ltb,
  ntohl-htonl,
}
use remotecopy.Pdu.{Pdu, fields, create_pdu, process_pdu, IsChecksum, pdu_header_len}

module _ (in_cksum : List ℕ → ℕ) where
  pub length-create_pdu :
      (seq flag : ℕ) (payload : List ℕ)
      → length (create_pdu in_cksum seq flag payload) ≡ pdu_header_len + length payload
  unfolding create_pdu
  length-create_pdu seq flag payload = omega arith

  pub cksum-create_pdu :
      IsChecksum in_cksum
      → (seq flag : ℕ) (payload : List ℕ) → in_cksum (create_pdu in_cksum seq flag payload) ≡ 0
  unfolding create_pdu
  cksum-create_pdu law seq flag payload = law.verifies _ _ _ _ (flag ∷ payload)

  fields-create_pdu :
      (seq flag : ℕ) (payload : List ℕ)
      → seq < 2 ^ 32
      → fields (create_pdu in_cksum seq flag payload)
        ≡ some (record { sequence_number = seq; recv_flag = flag; payload = payload })
  unfolding create_pdu fields
  fields-create_pdu seq flag payload h =
      let pdu : ℕ → Pdu =
        λ n. record { sequence_number = n; recv_flag = flag; payload = payload } in
      ap (λ n. some (pdu n)) (ntohl-htonl seq h)

  -- What createPDU builds, processPDU accepts, and gives back the sequence number, the flag and the
  -- payload, for each sequence number that fits 32 bits and each checksum that is a 16-bit word and
  -- makes a buffer with it sum to zero.
  pub process_pdu-create_pdu :
      IsChecksum in_cksum
      → (seq flag : ℕ) (payload : List ℕ) → seq < 2 ^ 32
      → process_pdu in_cksum (create_pdu in_cksum seq flag payload)
        ≡ some (record { sequence_number = seq; recv_flag = flag; payload = payload })
  unfolding process_pdu
  process_pdu-create_pdu law seq flag payload h =
      rw
        (
          le→ltb (length (create_pdu in_cksum seq flag payload)) pdu_header_len
              (omega (arith, length-create_pdu seq flag payload)),
          cksum-create_pdu law seq flag payload,
        )
        (fields-create_pdu seq flag payload h)

  fields-ne-none : (pdu : List ℕ) → pdu_header_len ≤ length pdu → (p : Pdu) × (fields pdu ≡ some p)
  unfolding fields
  fields-ne-none (a ∷ b ∷ c ∷ d ∷ s ∷ t ∷ flag ∷ payload) h = (_, refl)
  fields-ne-none _ h = absurd (omega arith)

  -- processPDU reports an issue exactly when the buffer is shorter than a header or does not sum to
  -- zero.
  pub process_pdu-none_iff :
      (pdu : List ℕ)
      → (process_pdu in_cksum pdu ≡ none) ↔ ((length pdu < pdu_header_len) ⊎ (in_cksum pdu ≢ 0))
  unfolding process_pdu
  process_pdu-none_iff pdu = ground (arith, fields-ne-none pdu)
