-- ===== src/Base/Chunks.antt =====
-- A file cut into chunks: the bytes of the first chunks, and prefixes.
use remotecopy.Base.{
  ℕ, zero, suc, ◌<◌, ◌≡◌, refl, sym, ap, ◌∙◌, some, List, [], ◌∷◌, ◌++◌, append_assoc, append-nil,
  length, get_elem?, take, arith,
}

abbrev pub concat : List (List ℕ) → List ℕ
concat [] = []
concat (c ∷ cs) = c ++ concat cs

-- The first list is a prefix of the second.
abbrev pub Prefix : List ℕ → List ℕ → Type 0
Prefix xs ys = (rest : List ℕ) × (xs ++ rest ≡ ys)

pub concat-take-suc :
    (cs : List (List ℕ)) (n : ℕ) (c : List ℕ)
    → get_elem? cs n ≡ some c
    → concat (take (suc n) cs) ≡ concat (take n cs) ++ c
concat-take-suc [] n c e = absurd (cc)
concat-take-suc (x ∷ xs) zero c e = rw append-nil (cc)
concat-take-suc (x ∷ xs) (suc n) c e = rw append_assoc (ap (◌++◌ x) (concat-take-suc xs n c e))

pub concat-append : (xs ys : List (List ℕ)) → concat (xs ++ ys) ≡ concat xs ++ concat ys
concat-append [] ys = refl
concat-append (x ∷ xs) ys = rw append_assoc (ap (◌++◌ x) (concat-append xs ys))

pub take_prefix : (n : ℕ) (xs : List ℕ) → Prefix (take n xs) xs
take_prefix zero xs = (xs, refl)
take_prefix (suc n) [] = ([], refl)
take_prefix (suc n) (x ∷ xs) = ((take_prefix n xs).0, ap (◌∷◌ x) (take_prefix n xs).1)

pub concat-take_prefix : (n : ℕ) (cs : List (List ℕ)) → Prefix (concat (take n cs)) (concat cs)
concat-take_prefix zero cs = (concat cs, refl)
concat-take_prefix (suc n) [] = ([], refl)
concat-take_prefix (suc n) (c ∷ cs) =
    ((concat-take_prefix n cs).0, append_assoc c _ _ ∙ ap (◌++◌ c) (concat-take_prefix n cs).1)

-- The first chunks and a part of the next one.
pub partial_prefix :
    (cs : List (List ℕ)) (n k : ℕ) (c : List ℕ)
    → get_elem? cs n ≡ some c
    → Prefix (concat (take n cs) ++ take k c) (concat cs)
partial_prefix cs n k c e =
    let (rest, p) = take_prefix k c in
    let (more, q) = concat-take_prefix (suc n) cs in
    (
      rest ++ more,
      partial_path (concat (take n cs)) (take k c) rest more c (concat cs) p
          (ap (λ x. x ++ more) (sym (concat-take-suc cs n c e)) ∙ q),
    )
  where
    partial_path :
        (a t rest more c all : List ℕ)
        → t ++ rest ≡ c
        → (a ++ c) ++ more ≡ all
        → (a ++ t) ++ (rest ++ more) ≡ all
    partial_path a t rest more c all p q = rw (← q, ← p) (simp append_assoc)

pub get_elem?-some_lt :
    (cs : List (List ℕ)) (n : ℕ) (c : List ℕ) → get_elem? cs n ≡ some c → n < length cs
get_elem?-some_lt [] n c e = absurd (cc)
get_elem?-some_lt (x ∷ xs) zero c e = omega arith
get_elem?-some_lt (x ∷ xs) (suc n) c e = omega (arith, get_elem?-some_lt xs n c e)
