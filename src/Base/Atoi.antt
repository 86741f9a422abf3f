-- ===== src/Base/Atoi.antt =====
-- `atoi` of a string: the `int` as its bit pattern below 2 ^ 32, for numbers that a `long` holds.
use Prim.Native.Nat.{ℕ, ◌+◌, ◌-◌, ◌*◌, ◌%◌, ◌^◌, ◌<◌}
use mathlib.Core.Bool.{Bool, ◌||◌, ◌&&◌}
use mathlib.Core.List.{List, [], ◌∷◌}
use native.Mathlib.Omega.{arith}
use remotecopy.Base.Tests.{leb, ◌==◌, if◌then◌else◌}

abbrev is_space : ℕ → Bool
is_space c = c == 32 || (leb 9 c && leb c 13)

abbrev is_digit : ℕ → Bool
is_digit c = leb 48 c && leb c 57

unfoldable pub digits : ℕ → List ℕ → ℕ
digits n [] = n
digits n (c ∷ cs) = let more = digits (10 * n + (c - 48)) cs in if is_digit c then more else n

-- 45 and 43 are the signs.
unfoldable pub signed : List ℕ → ℕ
unfolding digits
signed [] = 0
signed (c ∷ cs) =
    if c == 45
    then (2 ^ 32 - digits 0 cs % 2 ^ 32) % 2 ^ 32
    else if c == 43
    then digits 0 cs % 2 ^ 32
    else digits 0 (c ∷ cs) % 2 ^ 32

unfoldable pub skip_space : List ℕ → List ℕ
skip_space [] = []
skip_space (c ∷ cs) = let rest = skip_space cs in if is_space c then rest else c ∷ cs

unfoldable pub atoi : List ℕ → ℕ
unfolding signed skip_space
atoi text = signed (skip_space text)

-- An `int` is a bit pattern of 32 bits.
pub atoi-lt : (text : List ℕ) → atoi text < 2 ^ 32
unfolding atoi
atoi-lt text = by_sign (skip_space text)
  where
    by_sign : (cs : List ℕ) → signed cs < 2 ^ 32
    by_sign [] = omega arith
    by_sign (c ∷ cs) = ground arith
