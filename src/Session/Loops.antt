-- ===== src/Session/Loops.antt =====
-- A loop over polls as a sequence of steps between places.
use remotecopy.Base.{◌≡◌, Bool, true, sym, subst, List, [], ◌∷◌}
use remotecopy.Base.Control.{
  Event, Turn, again, leave, crash, Outcome, returned, waiting, faulted, finish, poll_loop, Fault,
}

-- `go_on` is a step without an event, and `hear` a poll; only some places poll.
module _ {X : Type 0} (go_on : X → X) (hear : Event → X → X) (is_polling : X → Bool) where
  -- The steps from a place and a list of events to a place and the events that are left.
  pub data Steps (q : X) (left : List Event) : X → List Event → Type 0 where
    stays : Steps q left q left
    goes_on : (p : X) (es : List Event) → Steps q left (go_on p) es → Steps q left p es
    hears :
        (e : Event) (p : X) (es : List Event)
        → is_polling p ≡ true
        → Steps q left (hear e p) es
        → Steps q left p (e ∷ es)

  -- `enter` is where a loop is left for, `broken` where a fault leads; `tests` and `polls` are the
  -- places of the loop.
  module _ {W A : Type 0} (enter : A → W → X) (broken : Fault → W → X) where
    abbrev pub after : (W → X) → W → Turn W A → X
    after k w (again w') = k w'
    after k w (leave a w') = enter a w'
    after k w (crash f) = broken f w

    -- How a loop ends, in steps from `p`.
    abbrev pub Lands : (W → X) → X → List Event → Outcome W A → Type 0
    Lands polls p es (returned a left w) = Steps (enter a w) left p es
    Lands polls p es (waiting w) = Steps (polls w) [] p es
    Lands polls p es (faulted f) = (w : W) × (left : List Event) × Steps (broken f w) left p es

    module _ (tests polls : W → X) (before : W → Turn W A) (on : Event → W → Turn W A)
        (at_test : (w : W) → go_on (tests w) ≡ after polls w (before w))
        (at_poll : (e : Event) (w : W) → hear e (polls w) ≡ after tests w (on e w))
        (polling : (w : W) → is_polling (polls w) ≡ true) where
      goes_on-Lands :
          (p : X) (es : List Event) (o : Outcome W A)
          → Lands polls (go_on p) es o
          → Lands polls p es o
      goes_on-Lands p es (returned a left w) h = Steps.goes_on p es h
      goes_on-Lands p es (waiting w) h = Steps.goes_on p es h
      goes_on-Lands p es (faulted f) (w, left, h) = (w, left, Steps.goes_on p es h)

      hears-Lands :
          (e : Event) (p : X) (es : List Event) (o : Outcome W A)
          → is_polling p ≡ true
          → Lands polls (hear e p) es o
          → Lands polls p (e ∷ es) o
      hears-Lands e p es (returned a left w) i h = Steps.hears e p es i h
      hears-Lands e p es (waiting w) i h = Steps.hears e p es i h
      hears-Lands e p es (faulted f) i (w, left, h) = (w, left, Steps.hears e p es i h)

      finish-Lands :
          (es : List Event) (go : W → Outcome W A) (next : W → X) (w : W) (t : Turn W A)
          → ((w' : W) → Lands polls (next w') es (go w'))
          → Lands polls (after next w t) es (finish es go t)
      finish-Lands es go next w (again w') h = h w'
      finish-Lands es go next w (leave a w') h = Steps.stays
      finish-Lands es go next w (crash f) h = (w, es, Steps.stays)

      pub poll_loop-Lands :
          (es : List Event) (w : W) → Lands polls (tests w) es (poll_loop before on es w)
      unfolding poll_loop
      poll_loop-Lands [] w = goes_on-Lands (tests w) [] _ (
          subst (λ p. Lands polls p [] (finish [] waiting (before w))) (sym (at_test w))
            (finish-Lands [] waiting polls w (before w) (λ w'. Steps.stays)))
      poll_loop-Lands (e ∷ es) w = goes_on-Lands (tests w) (e ∷ es) _ (
          subst (λ p. Lands polls p (e ∷ es) (finish (e ∷ es) rest (before w))) (sym (at_test w))
            (finish-Lands (e ∷ es) rest polls w (before w) (λ w'.
              hears-Lands e (polls w') es (rest w') (polling w') (
                subst (λ p. Lands polls p es (rest w')) (sym (at_poll e w'))
                  (finish-Lands es (poll_loop before on es) tests w' (on e w')
                    (poll_loop-Lands es))))))
        where
          rest : W → Outcome W A
          rest w' = finish es (poll_loop before on es) (on e w')
