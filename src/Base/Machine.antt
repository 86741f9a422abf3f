-- ===== src/Base/Machine.antt =====
-- The main loop of both programs: `while (state != DONE) switch (state)`, where each case is a
-- function that returns the next state.
use remotecopy.Base.{
  ℕ, zero, suc, ◌<◌, ◌≡◌, Bool, true, false, List, All, if◌then◌else◌, arith, Bool-cases, inl, inr,
}
use remotecopy.Base.Control.{Event, Fault, Outcome, returned, waiting, faulted, OutcomeIs}

module _ {S W : Type 0} where
  abbrev pub then_loop : (S → List Event → W → Outcome W S) → Outcome W S → Outcome W S
  then_loop k (returned st es w) = k st es w
  then_loop k (waiting w) = waiting w
  then_loop k (faulted f) = faulted f

module _ {S W : Type 0} (is_done : S → Bool) (switch : S → List Event → W → Outcome W S) where
  -- For at most the given number of rounds. When these run out, the state that is returned is not
  -- a final one.
  unfoldable pub machine : ℕ → S → List Event → W → Outcome W S
  machine zero st es w = returned st es w
  machine (suc n) st es w =
      let next = then_loop (machine n) (switch st es w) in
      if is_done st then returned st es w else next

  -- The result is final, or waits, or is a fault: the loop has not run out of rounds.
  abbrev pub IsFinal : Outcome W S → Type 0
  IsFinal (returned st es w) = is_done st ≡ true
  IsFinal (waiting w) = Unit {0}
  IsFinal (faulted f) = Unit {0}

  -- What a round may return, so that the measure falls.
  abbrev pub Falls : (S → List Event → W → ℕ) → ℕ → Outcome W S → Type 0
  Falls measure bound (returned st es w) = measure st es w < bound
  Falls measure bound (waiting w) = Unit {0}
  Falls measure bound (faulted f) = Unit {0}

  -- With more rounds than the measure, which each round makes fall, the loop ends.
  module _ (measure : S → List Event → W → ℕ)
      (falls : (st : S) (es : List Event) (w : W)
        → is_done st ≡ false
        → Falls measure (measure st es w) (switch st es w)) where
    IsFinal-next :
        (n bound : ℕ) (o : Outcome W S)
        → bound < suc n
        → ((st : S) (es : List Event) (w : W) → measure st es w < n → IsFinal (machine n st es w))
        → Falls measure bound o
        → IsFinal (then_loop (machine n) o)
    IsFinal-next n bound (returned st es w) b ih h = ih st es w (omega arith)
    IsFinal-next n bound (waiting w) b ih h = tt
    IsFinal-next n bound (faulted f) b ih h = tt

    pub machine-IsFinal :
        (n : ℕ) (st : S) (es : List Event) (w : W)
        → measure st es w < n
        → IsFinal (machine n st es w)
    unfolding machine
    machine-IsFinal zero st es w h = absurd (omega arith)
    machine-IsFinal (suc n) st es w h = elim (Bool-cases (is_done st)) [
      | inl e ↦ rw e e
      | inr e ↦ rw e (
          IsFinal-next n (measure st es w) (switch st es w) h (machine-IsFinal n) (falls st es w e))
    ]

  -- An invariant of the states and the variables, kept by each case of the switch.
  module _ (G : Event → Type 0) (I : S → W → Type 0) (M : W → Type 0) (C : Fault → Type 0)
      (keeps : (st : S) (es : List Event) (w : W)
        → is_done st ≡ false
        → All G es
        → I st w
        → OutcomeIs G M I C (switch st es w)) where
    rule-next :
        (n : ℕ) (o : Outcome W S)
        → ((st : S) (es : List Event) (w : W)
            → All G es
            → I st w
            → OutcomeIs G M I C (machine n st es w))
        → OutcomeIs G M I C o
        → OutcomeIs G M I C (then_loop (machine n) o)
    rule-next n (returned st es w) ih h = ih st es w h.0 h.1
    rule-next n (waiting w) ih h = h
    rule-next n (faulted f) ih h = h

    pub machine_rule :
        (n : ℕ) (st : S) (es : List Event) (w : W)
        → All G es
        → I st w
        → OutcomeIs G M I C (machine n st es w)
    unfolding machine
    machine_rule zero st es w g i = (g, i)
    machine_rule (suc n) st es w g i = elim (Bool-cases (is_done st)) [
      | inl e ↦ rw e (g, i)
      | inr e ↦ rw e (rule-next n (switch st es w) (machine_rule n) (keeps st es w e g i))
    ]
