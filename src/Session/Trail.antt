-- ===== src/Session/Trail.antt =====
-- The steps of project_3/server.c or project_3/rcopy.c to a place where the program has ended.
use remotecopy.Base.{
  ◌≡◌, refl, sym, ap, subst, ◌∙◌, ◌⊎◌, inl, inr, Bool, true, false, List, [], ◌∷◌, ◌++◌,
}
use remotecopy.Base.Control.{Event}
use remotecopy.Session.Loops.{Steps}

-- As `Steps`, to a place where no events are left; `Fair` holds of the places behind which the program
-- goes on without an event.
module _ {X : Type 0} (go_on : X → X) (hear : Event → X → X) (is_polling : X → Bool)
    (Fair : X → Type 0) where
  pub data Trail (q : X) : X → List Event → Type 0 where
    ends : Trail q q []
    goes : (p : X) (es : List Event) → Fair p → Trail q (go_on p) es → Trail q p es
    takes :
        (e : Event) (p : X) (es : List Event)
        → is_polling p ≡ true
        → Trail q (hear e p) es
        → Trail q p (e ∷ es)

  pub Trail-goes : (q p : X) (es : List Event) → Fair q → Trail q p es → Trail (go_on q) p es
  Trail-goes q _ _ f Trail.ends = Trail.goes q [] f Trail.ends
  Trail-goes q p es f (Trail.goes _ _ g t) = Trail.goes p es g (Trail-goes q (go_on p) es f t)
  Trail-goes q p (e ∷ es) f (Trail.takes _ _ _ i t) =
      Trail.takes e p es i (Trail-goes q (hear e p) es f t)

  pub Trail-takes :
      (e : Event) (q p : X) (es : List Event)
      → is_polling q ≡ true
      → Trail q p es
      → Trail (hear e q) p (es ++ e ∷ [])
  Trail-takes e q _ _ i Trail.ends = Trail.takes e q [] i Trail.ends
  Trail-takes e q p es i (Trail.goes _ _ g t) =
      Trail.goes p (es ++ e ∷ []) g (Trail-takes e q (go_on p) es i t)
  Trail-takes e q p (x ∷ es) i (Trail.takes _ _ _ j t) =
      Trail.takes x p (es ++ e ∷ []) j (Trail-takes e q (hear x p) es i t)

  -- A place that polls is not left without an event.
  module _ (rests : (p : X) → is_polling p ≡ true → go_on p ≡ p) where
    still : (p : X) → is_polling p ≡ true → is_polling (go_on p) ≡ true
    still p i = ap is_polling (rests p i) ∙ i

    Trail-hear :
        (q p : X) (e : Event) (es left : List Event)
        → is_polling p ≡ true
        → es ≡ e ∷ left
        → Trail q p es
        → Trail q (hear e p) left
    Trail-hear q _ e _ left i same Trail.ends = absurd (cc)
    Trail-hear q p e es left i same (Trail.goes _ _ f t) =
        subst (λ p'. Trail q (hear e p') left) (rests p i)
          (Trail-hear q (go_on p) e es left (still p i) same t)
    Trail-hear q p e (x ∷ es) left i same (Trail.takes _ _ _ j t) =
        subst (λ x'. Trail q (hear x' p) left) (head_same same)
          (subst (λ es'. Trail q (hear x p) es') (tail_same same) t)
      where
        head_same : x ∷ es ≡ e ∷ left → x ≡ e
        head_same s = cc

        tail_same : x ∷ es ≡ e ∷ left → es ≡ left
        tail_same s = cc

    Trail-go : (q p : X) (es : List Event) → go_on q ≡ q → Trail q p es → Trail q (go_on p) es
    Trail-go q _ _ s Trail.ends = subst (λ p. Trail q p []) (sym s) Trail.ends
    Trail-go q p es s (Trail.goes _ _ f t) = t
    Trail-go q p (e ∷ es) s (Trail.takes _ _ _ i t) =
        subst (λ p'. Trail q p' (e ∷ es)) (sym (rests p i)) (Trail.takes e p es i t)

    -- From where the program has come to, it still comes to its end.
    Trail-Steps :
        (d q : X) (left : List Event) (p : X) (es : List Event)
        → go_on d ≡ d
        → Trail d p es
        → Steps go_on hear is_polling q left p es
        → Trail d q left
    Trail-Steps d q left _ _ s t Steps.stays = t
    Trail-Steps d q left p es s t (Steps.goes_on _ _ h) =
        Trail-Steps d q left (go_on p) es s (Trail-go d p es s t) h
    Trail-Steps d q left p (e ∷ es) s t (Steps.hears _ _ _ i h) =
        Trail-Steps d q left (hear e p) es s (Trail-hear d p e (e ∷ es) es i refl t) h

    -- A place that polls, with no events left, is the end.
    Trail-polls :
        (d q : X) (left : List Event) → is_polling q ≡ true → left ≡ [] → Trail d q left → d ≡ q
    Trail-polls d _ _ i n Trail.ends = refl
    Trail-polls d q left i n (Trail.goes _ _ f t) =
        Trail-polls d (go_on q) left (still q i) n t ∙ rests q i
    Trail-polls d q (e ∷ es) i n (Trail.takes _ _ _ j t) = absurd (cc)

    -- So is one where the program has ended.
    Trail-fixed :
        (d q : X) (left : List Event)
        → is_polling q ≡ false
        → go_on q ≡ q
        → Trail d q left
        → (d ≡ q) × (left ≡ [])
    Trail-fixed d _ _ i s Trail.ends = (refl, refl)
    Trail-fixed d q left i s (Trail.goes _ _ f t) =
        let (e, n) = Trail-fixed d (go_on q) left (ap is_polling s ∙ i) (ap go_on s) t in (e ∙ s, n)
    Trail-fixed d q (e ∷ es) i s (Trail.takes _ _ _ j t) = absurd (cc)

    -- Another place is one that polls or is fair.
    Trail-fair :
        (d q : X) (left : List Event) → Trail d q left → (d ≡ q) ⊎ (Fair q ⊎ (is_polling q ≡ true))
    Trail-fair d _ _ Trail.ends = inl refl
    Trail-fair d q left (Trail.goes _ _ f t) = inr (inl f)
    Trail-fair d q (e ∷ es) (Trail.takes _ _ _ j t) = inr (inr j)

    -- Where a run that leads away from the start of the trail may stand, if the trail ends at `d` and
    -- the program has ended there.
    module _ (d : X) (ended : go_on d ≡ d) (p : X) (es : List Event) (t : Trail d p es) (q : X)
        (left : List Event) (h : Steps go_on hear is_polling q left p es) where
      pub Steps-fixed : is_polling q ≡ false → go_on q ≡ q → (d ≡ q) × (left ≡ [])
      Steps-fixed i s = Trail-fixed d q left i s (Trail-Steps d q left p es ended t h)

      pub Steps-polls : is_polling d ≡ false → is_polling q ≡ true → left ≡ [] → ⊥
      Steps-polls silent polls gone =
          let same = Trail-polls d q left polls gone (Trail-Steps d q left p es ended t h) in
          clash (sym silent ∙ ap is_polling same ∙ polls)
        where
          clash : false ≡ true → ⊥
          clash e = cc

      pub Steps-fair : (d ≡ q) ⊎ (Fair q ⊎ (is_polling q ≡ true))
      Steps-fair = Trail-fair d q left (Trail-Steps d q left p es ended t h)
