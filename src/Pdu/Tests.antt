-- ===== src/Pdu/Tests.antt =====
-- project_3/pdu.c with a checksum that sums bytes: an input for each theorem on datagrams.
use remotecopy.Base.{
  true, refl, ℕ, ◌+◌, ◌*◌, ◌/◌, ◌%◌, ◌-◌, ◌<◌, ◌^◌, ◌≡◌, ◌≢◌, ◌⊎◌, ◌↔◌, ap, ◌∙◌, none, some, List,
  [], ◌∷◌, length, arith,
}
use remotecopy.Pdu.{create_pdu, process_pdu, IsChecksum, pdu_header_len}
use remotecopy.Pdu.{Pdu}
use remotecopy.Pdu.Print.{
  Line, dumped, print_bytes, print_chars, print_pdu, reports_error, print_pdu-process_pdu, read_hex,
  read_hex-print_bytes,
}
use remotecopy.Pdu.RoundTrip.{process_pdu-create_pdu, process_pdu-none_iff}

-- The sum of the little-endian 16-bit words of a buffer.
abbrev words : List ℕ → ℕ
words [] = 0
words (a ∷ []) = a
words (a ∷ b ∷ rest) = (a + 256 * b) + words rest

-- The complement of the sum of the words in ones' complement arithmetic.
abbrev sum_cksum : List ℕ → ℕ
sum_cksum bytes = (65535 - words bytes % 65535) % 65535

complement : (s : ℕ) → (s + (65535 - s % 65535) % 65535) % 65535 ≡ 0
complement s = omega arith

split_word : (x : ℕ) → x < 2 ^ 16 → x % 256 + 256 * (x / 256 % 256) ≡ x
split_word x h = omega arith

sum_cksum-small : (bytes : List ℕ) → sum_cksum bytes < 2 ^ 16
sum_cksum-small bytes = omega arith

from_zero : (s : ℕ) → s % 65535 ≡ 0 → (65535 - s % 65535) % 65535 ≡ 0
from_zero s h = omega arith

law : IsChecksum sum_cksum
law = record {
  word = sum_cksum-small;
  verifies = λ a b c d rest.
      let buffer = a ∷ b ∷ c ∷ d ∷ 0 ∷ 0 ∷ rest in
      from_zero _ (
        ap (λ s. s % 65535) (omega (arith, split_word (sum_cksum buffer) (sum_cksum-small buffer)))
        ∙ complement (words buffer));
}

process_pdu-create_pdu_example :
    process_pdu sum_cksum (create_pdu sum_cksum 70000 16 (1 ∷ 2 ∷ 3 ∷ []))
    ≡ some (record { sequence_number = 70000; recv_flag = 16; payload = 1 ∷ 2 ∷ 3 ∷ [] })
process_pdu-create_pdu_example =
    process_pdu-create_pdu sum_cksum law 70000 16 (1 ∷ 2 ∷ 3 ∷ []) (omega arith)

abbrev short : List ℕ
short = 1 ∷ 2 ∷ []

short_refused :
    (process_pdu sum_cksum short ≡ none) ↔ ((length short < pdu_header_len) ⊎ (sum_cksum short ≢ 0))
short_refused = process_pdu-none_iff sum_cksum short

print_pdu-process_pdu_example :
    ((reports_error (print_pdu sum_cksum short) ≡ true) ↔ (process_pdu sum_cksum short ≡ none))
    × ((p : Pdu)
        → process_pdu sum_cksum short ≡ some p
        → print_pdu sum_cksum short
          ≡ Line.sequence_number p.sequence_number
            ∷ Line.flag p.recv_flag
            ∷ Line.payload_len (length p.payload)
            ∷ dumped (print_bytes short)
            ∷ dumped (print_chars short)
            ∷ [])
print_pdu-process_pdu_example = print_pdu-process_pdu sum_cksum short

read_back : read_hex (print_bytes (7 ∷ 254 ∷ [])) ≡ some (7 ∷ 254 ∷ [])
read_back = read_hex-print_bytes (7 ∷ 254 ∷ []) (omega arith)

shown : print_bytes (7 ∷ 254 ∷ []) ≡ 48 ∷ 55 ∷ 32 ∷ 70 ∷ 69 ∷ 32 ∷ 10 ∷ []
unfolding print_bytes
shown = refl
