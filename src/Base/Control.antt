-- ===== src/Base/Control.antt =====
-- Results of code that may run into undefined behaviour, and the loops of the two programs over the
-- outcomes of their calls of `pollCall`.
use remotecopy.Base.{ℕ, ◌≤◌, ◌<◌, ◌≡◌, refl, ap, ◌⊎◌, inl, inr, List, [], ◌∷◌, arith, length, All}

-- What the C code would do next is undefined, or is a trap, or is a loop that goes on for more rounds
-- than the model has.
pub data Fault : Type 0 where
  null_pointer div_by_zero out_of_bounds overflow uninitialised endless : Fault

pub data Result {ℓ} (A : Type ℓ) : Type ℓ where
  ok : A → Result A
  fault : Fault → Result A

infixl 5 ◌>>=◌
abbrev pub ◌>>=◌ {ℓ κ} : {A : Type ℓ} {B : Type κ} → Result A → (A → Result B) → Result B
ok a >>= f = f a
fault e >>= f = fault e

-- What a call of `pollCall`, and the `recvfrom` that follows it, brings.
pub data Event : Type 0 where
  timeout : Event
  arrives : List ℕ → Event

-- How a part of a loop's body ends: the loop goes on, or it is left with a result.
pub data Turn (W A : Type 0) : Type 0 where
  again : W → Turn W A
  leave : A → W → Turn W A
  crash : Fault → Turn W A

-- How a loop over events ends: with a result and the events that are left, waiting at a poll
-- that none of the given events answers, or in a fault.
pub data Outcome (W A : Type 0) : Type 0 where
  returned : A → List Event → W → Outcome W A
  waiting : W → Outcome W A
  faulted : Fault → Outcome W A

module _ {W A : Type 0} where
  abbrev pub attempt {ℓ} : {B : Type ℓ} → Result B → (B → Turn W A) → Turn W A
  attempt (ok b) k = k b
  attempt (fault f) k = crash f

  -- Goes on by `k` where the loop goes on; `es` are the events that are left.
  abbrev pub finish : List Event → (W → Outcome W A) → Turn W A → Outcome W A
  finish es k (again w) = k w
  finish es k (leave a w) = returned a es w
  finish es k (crash f) = faulted f

  -- `before` is the body down to the poll, the loop's test included; `on` is the rest of it.
  unfoldable pub poll_loop : (W → Turn W A) → (Event → W → Turn W A) → List Event → W → Outcome W A
  poll_loop before on [] w = finish [] waiting (before w)
  poll_loop before on (e ∷ es) w =
      finish (e ∷ es) (λ w'. finish es (poll_loop before on es) (on e w')) (before w)

  -- A condition on each way in which a loop's part may end.
  abbrev pub TurnIs : (W → Type 0) → (A → W → Type 0) → (Fault → Type 0) → Turn W A → Type 0
  TurnIs P Q C (again w) = P w
  TurnIs P Q C (leave a w) = Q a w
  TurnIs P Q C (crash f) = C f

  -- The same for the loop; `G` holds of the events that are left.
  abbrev pub OutcomeIs :
      (Event → Type 0) → (W → Type 0) → (A → W → Type 0) → (Fault → Type 0) → Outcome W A → Type 0
  OutcomeIs G M Q C (returned a es w) = All G es × Q a w
  OutcomeIs G M Q C (waiting w) = M w
  OutcomeIs G M Q C (faulted f) = C f

  -- What is left of the events is no longer than `n`.
  abbrev pub LeftAtMost : ℕ → Outcome W A → Type 0
  LeftAtMost n (returned a es w) = length es ≤ n
  LeftAtMost n _ = Unit

pub TurnIs-weaken :
    {W A : Type 0} (P : W → Type 0) (Q Q' : A → W → Type 0) (C : Fault → Type 0) (t : Turn W A)
    → ((a : A) (w : W) → Q a w → Q' a w)
    → TurnIs P Q C t
    → TurnIs P Q' C t
TurnIs-weaken P Q Q' C (again w) k h = h
TurnIs-weaken P Q Q' C (leave a w) k h = k a w h
TurnIs-weaken P Q Q' C (crash f) k h = h

-- The rule of the loops: `P` holds at the loop's test, `M` at its poll.
module _ {W A : Type 0} (G : Event → Type 0) (P M : W → Type 0) where
  module _ (Q : A → W → Type 0) (C : Fault → Type 0) where
    finish-Is :
        (es : List Event) (k : W → Outcome W A) (t : Turn W A)
        → All G es
        → ((w : W) → P w → OutcomeIs G M Q C (k w))
        → TurnIs P Q C t
        → OutcomeIs G M Q C (finish es k t)
    finish-Is es k (again w) g step h = step w h
    finish-Is es k (leave a w) g step h = (g, h)
    finish-Is es k (crash f) g step h = h

module _ {W A : Type 0} (G : Event → Type 0) (P M : W → Type 0) (Q : A → W → Type 0)
    (C : Fault → Type 0) (before : W → Turn W A) (on : Event → W → Turn W A)
    (first : (w : W) → P w → TurnIs M Q C (before w))
    (second : (e : Event) (w : W) → G e → M w → TurnIs P Q C (on e w)) where
  pub poll_loop_rule :
      (es : List Event) (w : W) → All G es → P w → OutcomeIs G M Q C (poll_loop before on es w)
  unfolding poll_loop
  poll_loop_rule [] w g p = finish-Is G M M Q C [] waiting (before w) tt (λ w' m. m) (first w p)
  poll_loop_rule (e ∷ es) w g p =
      finish-Is G M M Q C (e ∷ es) _ (before w) g
        (λ w' m.
          finish-Is G P M Q C es (poll_loop before on es) (on e w') g.1
            (λ w'' q. poll_loop_rule es w'' g.1 q) (second e w' g.0 m))
        (first w p)

module _ {W A : Type 0} (P : W → Type 0) (Q : A → W → Type 0) (C : Fault → Type 0) {B : Type 0}
    (k : B → Turn W A) (all : (f : Fault) → C f) (go : (b : B) → TurnIs P Q C (k b)) where
  pub attempt-Is : (r : Result B) → TurnIs P Q C (attempt r k)
  attempt-Is (ok b) = go b
  attempt-Is (fault f) = all f

-- A loop is left at its first test, with all events, or after it has used one at least.
module _ {W A : Type 0} (before : W → Turn W A) (on : Event → W → Turn W A) where
  abbrev pub Progress : List Event → W → Outcome W A → Type 0
  Progress es w (returned a es' w') =
      (length es' < length es) ⊎ ((es' ≡ es) × (before w ≡ leave a w'))
  Progress es w (waiting w') = Unit {0}
  Progress es w (faulted f) = Unit {0}

  weaken :
      (e : Event) (es : List Event) (w w' : W) (o : Outcome W A)
      → Progress es w' o
      → Progress (e ∷ es) w o
  weaken e es w w' (returned a es' w'') (inl h) = inl (omega arith)
  weaken e es w w' (returned a es' w'') (inr (q, _)) = inl (omega (arith, ap length q))
  weaken e es w w' (waiting w'') h = tt
  weaken e es w w' (faulted f) h = tt

  Progress-on :
      (e : Event) (es : List Event) (w : W) (k : W → Outcome W A) (t : Turn W A)
      → ((w' : W) → Progress es w' (k w'))
      → Progress (e ∷ es) w (finish es k t)
  Progress-on e es w k (again w') h = weaken e es w w' (k w') (h w')
  Progress-on e es w k (leave a w') h = inl (omega arith)
  Progress-on e es w k (crash f) h = tt

  Progress-before :
      (es : List Event) (w : W) (k : W → Outcome W A) (t : Turn W A)
      → before w ≡ t
      → ((w' : W) → Progress es w (k w'))
      → Progress es w (finish es k t)
  Progress-before es w k (again w') q h = h w'
  Progress-before es w k (leave a w') q h = inr (refl, q)
  Progress-before es w k (crash f) q h = tt

  pub poll_loop-Progress : (es : List Event) (w : W) → Progress es w (poll_loop before on es w)
  unfolding poll_loop
  poll_loop-Progress [] w = Progress-before [] w waiting (before w) refl (λ w'. tt)
  poll_loop-Progress (e ∷ es) w =
      Progress-before (e ∷ es) w (λ w'. finish es (poll_loop before on es) (on e w')) (before w)
        refl (λ w'. Progress-on e es w (poll_loop before on es) (on e w') (poll_loop-Progress es))

-- The loop at a test that leaves it, and over one event at which it goes on.
module _ {W A : Type 0} (before : W → Turn W A) (on : Event → W → Turn W A) where
  pub poll_loop-leave :
      (es : List Event) (w : W) (a : A) (w' : W)
      → before w ≡ leave a w'
      → poll_loop before on es w ≡ returned a es w'
  unfolding poll_loop
  poll_loop-leave [] w a w' e = rw e
  poll_loop-leave (x ∷ es) w a w' e = rw e

  pub poll_loop-again :
      (x : Event) (es : List Event) (w w' w'' : W)
      → before w ≡ again w'
      → on x w' ≡ again w''
      → poll_loop before on (x ∷ es) w ≡ poll_loop before on es w''
  unfolding poll_loop
  poll_loop-again x es w w' w'' e q = rw (e, q)
