-- ===== src/Session/Rounds.antt =====
-- The main loop of both programs (`while (state != DONE) switch (state)`) as a sequence of steps
-- between places.
use remotecopy.Base.{ℕ, zero, suc, ◌≡◌, Bool, false, List, ◌∷◌, Bool-cases, inl, inr}
use remotecopy.Base.Control.{Event, Fault, Outcome, returned, waiting, faulted}
use remotecopy.Base.Machine.{machine, then_loop}
use remotecopy.Session.Loops.{Steps}

module _ {X : Type 0} (go_on : X → X) (hear : Event → X → X) (is_polling : X → Bool) where
  pub Steps-trans :
      (r q : X) (left' left : List Event) (p : X) (es : List Event)
      → Steps go_on hear is_polling q left p es
      → Steps go_on hear is_polling r left' q left
      → Steps go_on hear is_polling r left' p es
  Steps-trans r q left' left _ _ Steps.stays k = k
  Steps-trans r q left' left p es (Steps.goes_on _ _ h) k =
      Steps.goes_on p es (Steps-trans r q left' left (go_on p) es h k)
  Steps-trans r q left' left p (e ∷ es) (Steps.hears _ _ _ i h) k =
      Steps.hears e p es i (Steps-trans r q left' left (hear e p) es h k)

  -- `At` is where the program stands between two rounds, `Rests` where it waits, with the events
  -- that are left, and `Broken` where it has run into a fault.
  module _ {S W : Type 0} (At : S → W → X → Type 0) (Rests : W → List Event → X → Type 0)
      (Broken : Fault → X → Type 0) where
    -- How a run ends, in steps from `p`.
    abbrev pub Comes : X → List Event → Outcome W S → Type 0
    Comes p es (returned st left w) = (q : X) × At st w q × Steps go_on hear is_polling q left p es
    Comes p es (waiting w) =
        (q : X) × (left : List Event) × Rests w left q × Steps go_on hear is_polling q left p es
    Comes p es (faulted f) =
        (q : X) × (left : List Event) × Broken f q × Steps go_on hear is_polling q left p es

    Comes-after :
        (q : X) (left : List Event) (p : X) (es : List Event) (o : Outcome W S)
        → Steps go_on hear is_polling q left p es
        → Comes q left o
        → Comes p es o
    Comes-after q left p es (returned st left' w) h (r, a, k) =
        (r, a, Steps-trans r q left' left p es h k)
    Comes-after q left p es (waiting w) h (r, left', a, k) =
        (r, left', a, Steps-trans r q left' left p es h k)
    Comes-after q left p es (faulted f) h (r, left', a, k) =
        (r, left', a, Steps-trans r q left' left p es h k)

    -- A round, and what the loop makes of its result.
    pub then_loop-Comes :
        (k : S → List Event → W → Outcome W S) (p : X) (es : List Event) (o : Outcome W S)
        → ((st : S) (left : List Event) (w : W) (q : X) → At st w q → Comes q left (k st left w))
        → Comes p es o
        → Comes p es (then_loop k o)
    then_loop-Comes k p es (returned st left w) h (q, a, steps) =
        Comes-after q left p es (k st left w) steps (h st left w q a)
    then_loop-Comes k p es (waiting w) h c = c
    then_loop-Comes k p es (faulted f) h c = c

    module _ (is_done : S → Bool) (switch : S → List Event → W → Outcome W S)
        (round : (st : S) (es : List Event) (w : W) (p : X)
          → is_done st ≡ false
          → At st w p
          → Comes p es (switch st es w)) where
      pub machine-Comes :
          (n : ℕ) (st : S) (es : List Event) (w : W) (p : X)
          → At st w p
          → Comes p es (machine is_done switch n st es w)
      unfolding machine
      machine-Comes zero st es w p a = (p, a, Steps.stays)
      machine-Comes (suc n) st es w p a = elim (Bool-cases (is_done st)) [
        | inl e ↦ rw e (p, a, Steps.stays)
        | inr e ↦ rw e (
            then_loop-Comes (machine is_done switch n) p es (switch st es w) (machine-Comes n)
              (round st es w p e a))
      ]
