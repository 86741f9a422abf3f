-- ===== src/Pdu.antt =====
-- project_3/pdu.c: the datagrams. A byte is a number, a buffer a list of bytes; a length that goes
-- with a buffer is the list's. `in_cksum` of libcpe464 is the parameter `in_cksum`.
pub mod RoundTrip
pub mod Print
mod Tests
use remotecopy.Base.{
  ℕ, ◌+◌, ◌<◌, ◌^◌, ◌≡◌, Bool, true, false, Option, none, some, List, [], ◌∷◌, ◌++◌, length, ◌==◌,
  ltb, if◌then◌else◌, htonl, ntohl, host16,
}

abbrev pub pdu_header_len : ℕ
pdu_header_len = 7

-- What `processPDU` writes through its pointers; `payload_len` is the payload's length.
pub record Pdu : Type 0 where
  pub sequence_number : ℕ
  pub recv_flag : ℕ
  pub payload : List ℕ

-- The buffer with the checksum field filled in by `sum`.
abbrev pub frame : ℕ → ℕ → ℕ → List ℕ → List ℕ
frame seq sum flag payload = htonl seq ++ host16 sum ++ flag ∷ payload

-- The fields of a buffer of at least `pdu_header_len` bytes; `none` for a shorter one.
unfoldable pub fields : List ℕ → Option Pdu
fields (a ∷ b ∷ c ∷ d ∷ s ∷ t ∷ flag ∷ payload) =
    some (record { sequence_number = ntohl a b c d; recv_flag = flag; payload = payload })
fields _ = none

module _ (in_cksum : List ℕ → ℕ) where
  -- The buffer that `createPDU` fills; the length that it returns is the list's.
  unfoldable pub create_pdu : ℕ → ℕ → List ℕ → List ℕ
  create_pdu seq flag payload = frame seq (in_cksum (frame seq 0 flag payload)) flag payload

  -- `processPDU`: `none` stands for -1. The callers read nothing through the pointers then.
  unfoldable pub process_pdu : List ℕ → Option Pdu
  unfolding fields
  process_pdu pdu =
      if ltb (length pdu) pdu_header_len
      then none
      else if in_cksum pdu == 0
      then fields pdu
      else none

-- What is relied on of the Internet checksum: it fits a `uint16_t`, and a buffer into whose zeroed
-- checksum field (bytes 4 and 5) its checksum has been stored sums to zero.
pub record IsChecksum (in_cksum : List ℕ → ℕ) : Type 0 where
  pub word : (bytes : List ℕ) → in_cksum bytes < 2 ^ 16
  pub verifies :
      (a b c d : ℕ) (rest : List ℕ)
      → in_cksum (a ∷ b ∷ c ∷ d ∷ host16 (in_cksum (a ∷ b ∷ c ∷ d ∷ 0 ∷ 0 ∷ rest)) ++ rest) ≡ 0
