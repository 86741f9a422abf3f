-- ===== src/Pdu/Print.antt =====
-- printBytes, printChars and printPDU of project_3/pdu.c.
use remotecopy.Base.{
  ℕ, ◌+◌, ◌-◌, ◌*◌, ◌/◌, ◌%◌, ◌<◌, ◌≡◌, refl, ◌↔◌, Bool, true, false, ◌||◌, Option, none, some,
  List, [], ◌∷◌, length, ltb, ◌==◌, if◌then◌else◌, All, arith,
}
use remotecopy.Pdu.{Pdu, fields, process_pdu, pdu_header_len}

abbrev pub hex_digit : ℕ → ℕ
hex_digit n = if ltb n 10 then 48 + n else 55 + n

-- "%02X " for each byte, and a line's end.
unfoldable pub print_bytes : List ℕ → List ℕ
print_bytes [] = 10 ∷ []
print_bytes (b ∷ bytes) = hex_digit (b / 16) ∷ hex_digit (b % 16) ∷ 32 ∷ print_bytes bytes

-- "%c " for each byte, and a line's end.
unfoldable pub print_chars : List ℕ → List ℕ
print_chars [] = 10 ∷ []
print_chars (b ∷ bytes) = b ∷ 32 ∷ print_chars bytes

-- A line that printPDU prints; `dumped` is a call of printBytes or printChars.
pub data Line : Type 0 where
  truncated corrupted : Line
  sequence_number flag payload_len : ℕ → Line
  dumped : List ℕ → Line

module _ (in_cksum : List ℕ → ℕ) where
  abbrev pub contents : List ℕ → Pdu → List Line → List Line
  contents pdu p rest =
      Line.sequence_number p.sequence_number
      ∷ Line.flag p.recv_flag
      ∷ Line.payload_len (length p.payload)
      ∷ dumped (print_bytes pdu)
      ∷ dumped (print_chars pdu)
      ∷ rest

  abbrev pub verdict : List ℕ → List Line
  verdict pdu = if in_cksum pdu == 0 then [] else corrupted ∷ []

  -- The second branch of the match does not occur for a buffer of a header or more.
  unfoldable pub print_pdu : List ℕ → List Line
  unfolding fields print_bytes print_chars
  print_pdu pdu =
      if ltb (length pdu) pdu_header_len
      then truncated ∷ []
      else elim (fields pdu) [ some p ↦ contents pdu p (verdict pdu) | none ↦ [] ]

-- Whether the last line is an error.
abbrev pub is_error : Line → Bool
is_error truncated = true
is_error corrupted = true
is_error _ = false

abbrev pub reports_error : List Line → Bool
reports_error [] = false
reports_error (l ∷ lines) = is_error l || reports_error lines

-- printPDU reports an error exactly when processPDU does; for a buffer that processPDU accepts it
-- prints its sequence number, flag and payload length and the two dumps, and nothing else.
pub print_pdu-process_pdu :
    (in_cksum : List ℕ → ℕ) (pdu : List ℕ)
    → ((reports_error (print_pdu in_cksum pdu) ≡ true) ↔ (process_pdu in_cksum pdu ≡ none))
      × ((p : Pdu)
          → process_pdu in_cksum pdu ≡ some p
          → print_pdu in_cksum pdu
            ≡ Line.sequence_number p.sequence_number
              ∷ Line.flag p.recv_flag
              ∷ Line.payload_len (length p.payload)
              ∷ dumped (print_bytes pdu)
              ∷ dumped (print_chars pdu)
              ∷ [])
unfolding print_pdu process_pdu
print_pdu-process_pdu in_cksum (a ∷ b ∷ c ∷ d ∷ s ∷ t ∷ f ∷ payload) = ground arith
print_pdu-process_pdu in_cksum pdu = ((λ e. refl, λ e. refl), λ p e. cc)

abbrev pub hex_value : ℕ → ℕ
hex_value c = if ltb c 58 then c - 48 else c - 55

unfoldable pub read_hex : List ℕ → Option (List ℕ)
read_hex (a ∷ []) = if a == 10 then some [] else none
read_hex (a ∷ b ∷ c ∷ text) = elim (read_hex text) [
  | none ↦ none
  | some bytes ↦ some ((16 * hex_value a + hex_value b) ∷ bytes)
]
read_hex _ = none

hex_value-digit : (n : ℕ) → n < 16 → hex_value (hex_digit n) ≡ n
hex_value-digit n h = ground arith

-- The bytes that printBytes prints can be read back from the text, for every list of bytes.
pub read_hex-print_bytes :
    (bytes : List ℕ) → All (λ b. b < 256) bytes → read_hex (print_bytes bytes) ≡ some bytes
unfolding read_hex print_bytes
read_hex-print_bytes [] h = refl
read_hex-print_bytes (b ∷ bytes) (small, h) =
    ground (arith, hex_value-digit (b / 16), hex_value-digit (b % 16), read_hex-print_bytes bytes)
