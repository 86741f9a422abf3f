-- ===== src/Base/Words.antt =====
-- 32-bit words as bit patterns below 2 ^ 32: the signed reading of an `int32_t`, and the network
-- order of `htonl` and `ntohl` on a little-endian host.
use Prim.Native.Nat.{ℕ, ◌+◌, ◌*◌, ◌/◌, ◌%◌, ◌^◌, ◌<◌}
use mathlib.Core.Path.{◌≡◌}
use mathlib.Core.Bool.{Bool}
use mathlib.Core.List.{List, [], ◌∷◌}
use native.Mathlib.Omega.{arith}
use remotecopy.Base.Tests.{ltb, leb}

-- An `int32_t` pattern that stands for a negative number.
abbrev pub is_neg : ℕ → Bool
is_neg x = leb (2 ^ 31) x

-- `a < b` between `int32_t` patterns: adding 2 ^ 31 takes the signed order to the unsigned one.
abbrev pub slt : ℕ → ℕ → Bool
slt a b = ltb ((a + 2 ^ 31) % 2 ^ 32) ((b + 2 ^ 31) % 2 ^ 32)

abbrev pub inc32 : ℕ → ℕ
inc32 x = (x + 1) % 2 ^ 32

-- The four bytes of `htonl(x)` in memory.
abbrev pub htonl : ℕ → List ℕ
htonl x = x / 2 ^ 24 % 256 ∷ x / 2 ^ 16 % 256 ∷ x / 2 ^ 8 % 256 ∷ x % 256 ∷ []

-- `ntohl` of four bytes in memory.
abbrev pub ntohl : ℕ → ℕ → ℕ → ℕ → ℕ
ntohl a b c d = a * 2 ^ 24 + b * 2 ^ 16 + c * 2 ^ 8 + d

-- A `uint16_t` in memory.
abbrev pub host16 : ℕ → List ℕ
host16 x = x % 256 ∷ x / 256 % 256 ∷ []

pub ntohl-htonl :
    (x : ℕ)
    → x < 2 ^ 32
    → ntohl (x / 2 ^ 24 % 256) (x / 2 ^ 16 % 256) (x / 2 ^ 8 % 256) (x % 256) ≡ x
ntohl-htonl x h = omega arith

pub slt_pos : (a b : ℕ) → a < 2 ^ 31 → b < 2 ^ 31 → slt a b ≡ ltb a b
slt_pos a b ha hb = ground arith
