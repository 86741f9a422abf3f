-- ===== src/Base/Longer.antt =====
-- A loop over events (`poll_loop`) that returns, over a longer list of events.
use remotecopy.Base.{◌≡◌, ap, List, [], ◌∷◌, ◌++◌}
use remotecopy.Base.Control.{
  Event, Turn, again, leave, crash, Outcome, returned, waiting, faulted, finish, poll_loop,
}

module _ {W A : Type 0} where
  -- The outcome with more events left.
  abbrev pub with_more : List Event → Outcome W A → Outcome W A
  with_more more (returned a left w) = returned a (left ++ more) w
  with_more more (waiting w) = waiting w
  with_more more (faulted f) = faulted f

  finish-longer :
      (more es : List Event) (k k' : W → Outcome W A) (t : Turn W A)
      → (a : A) (left : List Event) (w : W)
      → ((v : W) → k v ≡ returned a left w → k' v ≡ returned a (left ++ more) w)
      → finish es k t ≡ returned a left w
      → finish (es ++ more) k' t ≡ returned a (left ++ more) w
  finish-longer more es k k' (again v) a left w go e = go v e
  finish-longer more es k k' (leave b v) a left w go e = ap (with_more more) e
  finish-longer more es k k' (crash f) a left w go e = absurd (cc)

  module _ (before : W → Turn W A) (on : Event → W → Turn W A) where
    -- A loop that does not wait is left at its first test, whatever follows.
    at_once :
        (more : List Event) (v : W) (a : A) (left : List Event) (w : W)
        → finish [] waiting (before v) ≡ returned a left w
        → poll_loop before on more v ≡ returned a (left ++ more) w
    unfolding poll_loop
    at_once [] v a left w e =
        finish-longer [] [] waiting waiting (before v) a left w (λ v' q. absurd (cc)) e
    at_once (x ∷ xs) v a left w e =
        finish-longer (x ∷ xs) [] waiting _ (before v) a left w (λ v' q. absurd (cc)) e

    pub poll_loop-longer :
        (more es : List Event) (v : W) (a : A) (left : List Event) (w : W)
        → poll_loop before on es v ≡ returned a left w
        → poll_loop before on (es ++ more) v ≡ returned a (left ++ more) w
    unfolding poll_loop
    poll_loop-longer more [] v a left w e = at_once more v a left w e
    poll_loop-longer more (x ∷ es) v a left w e =
        finish-longer more (x ∷ es) _ _ (before v) a left w
          (λ v'.
            finish-longer more es _ _ (on x v') a left w
              (λ v''. poll_loop-longer more es v'' a left w))
          e
