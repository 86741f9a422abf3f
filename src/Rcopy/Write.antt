-- ===== src/Rcopy/Write.antt =====
-- The writes of project_3/rcopy.c: all bytes are written, or a first part of them.
use remotecopy.Base.{
  ℕ, ◌≡◌, ◌⊎◌, inl, inr, true, false, List, ◌++◌, append-nil, take, take_all, length, ◌==◌,
  Bool-cases, arith, Option-cases,
}
use remotecopy.Rcopy.State.{System, Receiver}
use remotecopy.Rcopy.Send.{write}

abbrev pub with_file : Receiver → List ℕ → Receiver
with_file r file = record r { file = file }

module _ (sys : System) where
  -- A write of the receiver either has written all the bytes at the end of the file and reports so,
  -- or has written a first part of them and reports an error.
  pub write_cases :
      (bytes : List ℕ) (r : Receiver)
      → (write sys bytes r ≡ (with_file r (r.file ++ bytes), true))
        ⊎ ((k : ℕ) × (write sys bytes r ≡ (with_file r (r.file ++ take k bytes), false)))
  unfolding write
  write_cases bytes r = elim (Option-cases (sys.write_output r.file bytes)) [
    | inl e ↦ inr (0, ground (arith, append-nil r.file))
    | inr (n, e) ↦ elim (Bool-cases (n == length bytes)) [
      | inl q ↦ inl (ground (arith, take_all n bytes))
      | inr q ↦ inr (n, ground arith)
    ]
  ]
