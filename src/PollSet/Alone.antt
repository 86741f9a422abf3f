-- ===== src/PollSet/Alone.antt =====
-- A poll set (project_3/pollLib.c) with a single descriptor.
use remotecopy.Base.{
  ℕ, zero, suc, ◌≤◌, ◌<◌, ◌≡◌, ◌≢◌, refl, sym, ◌∙◌, some, List, length-set, length-replicate,
  replicate, get_elem?, get_elem?-set_self, get_elem?-set_ne, arith,
}
use remotecopy.PollSet.{
  PollFd, PollSet, poll_set_size, pollin, empty_fd, setup_poll_set, add_to_poll_set, enter,
  IsPollSet,
}

-- The set asks for this socket and for nothing else.
pub record AsksOnly (s : ℕ) (p : PollSet) : Type 0 where
  pub ready : IsPollSet p
  pub size : p.current_poll_set_size ≡ poll_set_size
  pub asked : get_elem? p.poll_file_descriptors s ≡ some (record { fd = s; events = pollin })
  pub seen : s < p.max_file_descriptor
  pub others :
      (m : ℕ) (d : PollFd) → m ≢ s → get_elem? p.poll_file_descriptors m ≡ some d → d ≡ empty_fd

some-inj : {A : Type 0} {x y : A} → some x ≡ some y → x ≡ y
some-inj e = cc

get_elem?-replicate_only :
    {A : Type 0} (n i : ℕ) (a d : A) → get_elem? (replicate n a) i ≡ some d → d ≡ a
get_elem?-replicate_only zero i a d e = absurd (cc)
get_elem?-replicate_only (suc n) zero a d e = sym (some-inj e)
get_elem?-replicate_only (suc n) (suc i) a d e = get_elem?-replicate_only n i a d e

-- A socket below the size of a new set is entered there alone.
pub added-AsksOnly :
    (s : ℕ) (p : PollSet)
    → s < poll_set_size
    → p.max_file_descriptor ≤ poll_set_size
    → (q : PollSet) × (add_to_poll_set s (setup_poll_set p) ≡ some q) × AsksOnly s q
unfolding add_to_poll_set setup_poll_set
added-AsksOnly s p h within = (
  enter s (setup_poll_set p),
  ground arith,
  record {
    ready = record {
      slots =
          length-set new s (record { fd = s; events = pollin })
          ∙ length-replicate poll_set_size empty_fd;
      within = ground arith;
    };
    size = refl;
    asked =
        get_elem?-set_self new s (record { fd = s; events = pollin })
          (omega (arith, length-replicate poll_set_size empty_fd));
    seen = ground arith;
    others = λ m d ne e.
        get_elem?-replicate_only poll_set_size m empty_fd d (
          sym (get_elem?-set_ne new s m (record { fd = s; events = pollin }) (λ q. ne (sym q)))
          ∙ e);
  },
)
  where
    new : List PollFd
    new = replicate poll_set_size empty_fd
