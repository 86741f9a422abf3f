-- ===== src/Base/Slots.antt =====
-- Slot arithmetic: the numbers of one window of `w` numbers have different remainders by `w`.
use native.Mathlib.Nat.{mod-add-mod, mod-lt, mod-eq_of_lt, mod-eq-sub-mod}
use native.Mathlib.Decide.{dec_lt}
use remotecopy.Base.{ℕ, ◌+◌, ◌-◌, ◌%◌, ◌<◌, ◌≤◌, ◌≢◌, ap, sym, ◌∙◌, arith}

shift-ne : (r d w : ℕ) → r < w → 0 < d → d < w → (r + d) % w ≢ r
shift-ne r d w hr hd hw e = elim (dec_lt (r + d) w) [
  | yes p ↦ omega (arith, mod-eq_of_lt p)
  | no p ↦ omega (
    arith,
    mod-eq-sub-mod {n = r + d} {m = w} (omega arith),
    mod-eq_of_lt {n = r + d - w} {m = w} (omega arith),
  )
]

pub mod-ne : (n m w : ℕ) → n < m → m < n + w → n % w ≢ m % w
mod-ne n m w h k e =
    shift-ne (n % w) (m - n) w (mod-lt n (omega arith)) (omega arith) (omega arith)
      (mod-add-mod n w (m - n) ∙ ap (λ x. x % w) (omega arith) ∙ sym e)

-- Two different numbers of the window that starts at `l`.
pub mod-ne_window : (l n m w : ℕ) → l ≤ n → n < l + w → l ≤ m → m < l + w → n ≢ m → n % w ≢ m % w
mod-ne_window l n m w ln nw lm mw ne e = elim (dec_lt n m) [
  | yes p ↦ mod-ne n m w p (omega arith) e
  | no p ↦ mod-ne m n w (omega arith) (omega arith) (sym e)
]
