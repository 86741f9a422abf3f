-- ===== src/PollSet.antt =====
-- project_3/pollLib.c: the set of descriptors that pollCall asks about.
pub mod Alone
mod Tests
use native.Mathlib.Decide.{dec_lt}
use remotecopy.Base.{
  ℕ, zero, suc, ◌+◌, ◌-◌, ◌<◌, ◌≤◌, ◌≡◌, ◌≢◌, refl, inl, inr, Bool, true, false, Option, none, some,
  List, [], ◌∷◌, ap, ◌⊎◌, ◌++◌, length, length-append, length-set, length-replicate, replicate,
  get_elem?, set, get_elem?-set_self, get_elem?-set_ne, get_elem?-append_left, sym, ◌∙◌, ltb,
  lt→ltb, leb, if◌then◌else◌, Bool-cases, arith,
}

-- The fields of a `struct pollfd` that are written.
pub record PollFd : Type 0 where
  pub fd : ℕ
  pub events : ℕ

-- The static variables; the array has its length.
pub record PollSet : Type 0 where
  pub poll_file_descriptors : List PollFd
  pub max_file_descriptor : ℕ
  pub current_poll_set_size : ℕ

abbrev pub poll_set_size : ℕ
poll_set_size = 10

-- POLLIN of the system's poll.h.
abbrev pub pollin : ℕ
pollin = 1

abbrev pub empty_fd : PollFd
empty_fd = record { fd = 0; events = 0 }

-- A new array; `max_file_descriptor` stays as it is.
unfoldable pub setup_poll_set : PollSet → PollSet
setup_poll_set p = record p {
  poll_file_descriptors = replicate poll_set_size empty_fd;
  current_poll_set_size = poll_set_size;
}

-- `none`: the process ends, since the new size is not greater.
unfoldable pub grow_poll_set : ℕ → PollSet → Option PollSet
grow_poll_set new_set_size p =
    if leb new_set_size p.current_poll_set_size
    then none
    else some (record p {
      poll_file_descriptors =
          p.poll_file_descriptors ++ replicate (new_set_size - p.current_poll_set_size) empty_fd;
      current_poll_set_size = new_set_size;
    })

abbrev pub enter : ℕ → PollSet → PollSet
enter n p = record p {
  max_file_descriptor = if leb p.max_file_descriptor (n + 1) then n + 1 else p.max_file_descriptor;
  poll_file_descriptors = set p.poll_file_descriptors n (record { fd = n; events = pollin });
}

unfoldable pub add_to_poll_set : ℕ → PollSet → Option PollSet
unfolding grow_poll_set
add_to_poll_set n p =
    if leb p.current_poll_set_size n
    then (elim (grow_poll_set (n + poll_set_size) p) [ none ↦ none | some q ↦ some (enter n q) ])
    else some (enter n p)

-- For a descriptor within the array.
unfoldable pub remove_from_poll_set : ℕ → PollSet → PollSet
remove_from_poll_set n p = record p {
  poll_file_descriptors = set p.poll_file_descriptors n empty_fd;
}

-- The lowest of the descriptors from `i` on whose `revents` is positive.
unfoldable pub first_ready : ℕ → List ℕ → Option ℕ
first_ready i [] = none
first_ready i (r ∷ revents) = if ltb 0 r then some i else first_ready (suc i) revents

-- pollCall, for the count that `poll` returns and the `revents` that it sets in the descriptors
-- below `max_file_descriptor`; `none` stands for -1.
unfoldable pub poll_call : ℕ → List ℕ → Option ℕ
unfolding first_ready
poll_call poll_value revents = if ltb 0 poll_value then first_ready 0 revents else none

-- The array has the size that is noted, and `poll` stays within it.
pub record IsPollSet (p : PollSet) : Type 0 where
  pub slots : length p.poll_file_descriptors ≡ p.current_poll_set_size
  pub within : p.max_file_descriptor ≤ p.current_poll_set_size

enter-IsPollSet :
    (n : ℕ) (p : PollSet) → IsPollSet p → n < p.current_poll_set_size → IsPollSet (enter n p)
enter-IsPollSet n p v h = record {
  slots = length-set p.poll_file_descriptors n (record { fd = n; events = pollin }) ∙ v.slots;
  within = ground (arith, v.within);
}

-- The set with room for more descriptors.
abbrev grown : ℕ → PollSet → PollSet
grown more p = record p {
  poll_file_descriptors = p.poll_file_descriptors ++ replicate more empty_fd;
  current_poll_set_size = p.current_poll_set_size + more;
}

grown-IsPollSet : (more : ℕ) (p : PollSet) → IsPollSet p → IsPollSet (grown more p)
grown-IsPollSet more p v = record {
  slots = omega (
    arith,
    length-append p.poll_file_descriptors (replicate more empty_fd),
    length-replicate more empty_fd,
    v.slots,
  );
  within = omega (arith, v.within);
}

grow_poll_set-grown :
    (n : ℕ) (p : PollSet)
    → p.current_poll_set_size ≤ n
    → grow_poll_set (n + poll_set_size) p
      ≡ some (grown (n + poll_set_size - p.current_poll_set_size) p)
unfolding grow_poll_set
grow_poll_set-grown n p h = ground arith

-- What entering a descriptor within the array does.
abbrev Entered : ℕ → PollSet → PollSet → Type 0
Entered n p q =
    IsPollSet q
    × (n < q.max_file_descriptor)
    × (p.max_file_descriptor ≤ q.max_file_descriptor)
    × (get_elem? q.poll_file_descriptors n ≡ some (record { fd = n; events = pollin }))
    × ((m : ℕ) → m ≢ n → get_elem? q.poll_file_descriptors m ≡ get_elem? p.poll_file_descriptors m)

enter-Entered :
    (n : ℕ) (p : PollSet) → IsPollSet p → n < p.current_poll_set_size → Entered n p (enter n p)
enter-Entered n p v h = (
  enter-IsPollSet n p v h,
  ground arith,
  ground arith,
  get_elem?-set_self p.poll_file_descriptors n (record { fd = n; events = pollin })
      (omega (arith, v.slots)),
  λ m ne.
      get_elem?-set_ne p.poll_file_descriptors n m (record { fd = n; events = pollin })
        (λ e. ne (sym e)),
)

le→leb : (a b : ℕ) → a ≤ b → leb a b ≡ true
le→leb a b h = ground arith

-- addToPollSet of any descriptor, on a set whose array has the noted size and bounds the
-- descriptors that `poll` looks at, succeeds and keeps this: the descriptor is entered with POLLIN
-- and is among those that `poll` looks at, none of which is lost, and every other entry that the
-- array had is as it was, whether the array grows or not.
pub add_to_poll_set_lem :
    (n : ℕ) (p : PollSet)
    → IsPollSet p
    → (q : PollSet) × (add_to_poll_set n p ≡ some q)
      × IsPollSet q
      × (n < q.max_file_descriptor)
      × (p.max_file_descriptor ≤ q.max_file_descriptor)
      × (get_elem? q.poll_file_descriptors n ≡ some (record { fd = n; events = pollin }))
      × ((m : ℕ)
          → m ≢ n
          → m < p.current_poll_set_size
          → get_elem? q.poll_file_descriptors m ≡ get_elem? p.poll_file_descriptors m)
unfolding add_to_poll_set
add_to_poll_set_lem n p v = elim (dec_lt n p.current_poll_set_size) [
  | yes small ↦
      let (i, high, kept, here, rest) = enter-Entered n p v small in
      (enter n p, ground arith, i, high, kept, here, λ m ne h. rest m ne)
  | no large ↦
      let more = n + poll_set_size - p.current_poll_set_size in
      let (i, high, kept, here, rest) =
        enter-Entered n (grown more p) (grown-IsPollSet more p v) (omega arith) in
      (
        enter n (grown more p),
        rw (le→leb p.current_poll_set_size n (omega arith), grow_poll_set-grown n p (omega arith)),
        i,
        high,
        kept,
        here,
        λ m ne h.
            rest m ne
            ∙ get_elem?-append_left p.poll_file_descriptors (replicate more empty_fd) m
                (omega (arith, v.slots)),
      )
]

-- None of the descriptors below `k` is ready.
abbrev pub NoneBelow : List ℕ → ℕ → Type 0
NoneBelow revents k = (j r : ℕ) → j < k → get_elem? revents j ≡ some r → r ≡ 0

NoneBelow-suc :
    (r : ℕ) (revents : List ℕ) (k : ℕ)
    → r ≡ 0
    → NoneBelow revents k
    → NoneBelow (r ∷ revents) (suc k)
NoneBelow-suc r revents k z h zero r' lt e = cc
NoneBelow-suc r revents k z h (suc j) r' lt e = h j r' (omega arith) e

-- The lowest ready descriptor, or that there is none.
abbrev Lowest : ℕ → List ℕ → Type 0
Lowest i revents =
    ((first_ready i revents ≡ none) × NoneBelow revents (length revents))
    ⊎ ((k : ℕ) × (r : ℕ) × (first_ready i revents ≡ some (k + i))
        × (get_elem? revents k ≡ some r)
        × (0 < r)
        × NoneBelow revents k)

first_ready-Lowest : (i : ℕ) (revents : List ℕ) → Lowest i revents
unfolding first_ready
first_ready-Lowest i [] = inl (refl, λ j r lt e. absurd (omega arith))
first_ready-Lowest i (zero ∷ revents) = elim (first_ready-Lowest (suc i) revents) [
  | inl (e, h) ↦ inl (e, NoneBelow-suc zero revents (length revents) refl h)
  | inr (k, r, e, q, pos, h) ↦
      inr (suc k, r, e ∙ ap some (omega arith), q, pos, NoneBelow-suc zero revents k refl h)
]
first_ready-Lowest i (suc r ∷ revents) = inr (
  0,
  suc r,
  rw (lt→ltb 0 (suc r) (omega arith)) (ap some (omega arith)),
  refl,
  omega arith,
  λ j r' lt e. absurd (omega arith),
)

-- When `poll` reports that some descriptor is ready, pollCall returns the lowest descriptor whose
-- `revents` is positive, or -1 if there is none.
pub poll_call_lem :
    (poll_value : ℕ) (revents : List ℕ)
    → 0 < poll_value
    → ((poll_call poll_value revents ≡ none) × NoneBelow revents (length revents))
      ⊎ ((k : ℕ) × (r : ℕ) × (poll_call poll_value revents ≡ some k)
          × (get_elem? revents k ≡ some r)
          × (0 < r)
          × NoneBelow revents k)
unfolding poll_call
poll_call_lem poll_value revents pos = elim (first_ready-Lowest 0 revents) [
  | inl (e, h) ↦ inl (called ∙ e, h)
  | inr (k, r, e, q, p, h) ↦ inr (k, r, called ∙ e ∙ ap some (omega arith), q, p, h)
]
  where
    called : poll_call poll_value revents ≡ first_ready 0 revents
    called = rw (lt→ltb 0 poll_value pos) refl
