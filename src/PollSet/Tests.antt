-- ===== src/PollSet/Tests.antt =====
-- project_3/pollLib.c at concrete inputs: a descriptor beyond the first ten, and three descriptors of
-- which two are ready.
use remotecopy.Base.{
  ℕ, ◌<◌, ◌≤◌, ◌≡◌, ◌≢◌, ◌⊎◌, refl, none, some, List, [], ◌∷◌, get_elem?, replicate, arith,
}
use remotecopy.PollSet.{
  PollSet, IsPollSet, add_to_poll_set, add_to_poll_set_lem, poll_call, poll_call_lem, NoneBelow,
  empty_fd,
}

abbrev ten : PollSet
ten = record {
  poll_file_descriptors = replicate 10 empty_fd;
  max_file_descriptor = 0;
  current_poll_set_size = 10;
}

ten-IsPollSet : IsPollSet ten
ten-IsPollSet = record { slots = refl; within = omega arith }

add_to_poll_set_lem_example :
    (q : PollSet) × (add_to_poll_set 12 ten ≡ some q)
    × IsPollSet q
    × (12 < q.max_file_descriptor)
    × (0 ≤ q.max_file_descriptor)
    × (get_elem? q.poll_file_descriptors 12 ≡ some (record { fd = 12; events = 1 }))
    × ((m : ℕ)
        → m ≢ 12
        → m < 10
        → get_elem? q.poll_file_descriptors m ≡ get_elem? ten.poll_file_descriptors m)
add_to_poll_set_lem_example = add_to_poll_set_lem 12 ten ten-IsPollSet

abbrev ready : List ℕ
ready = 0 ∷ 4 ∷ 1 ∷ []

poll_call_lem_example :
    ((poll_call 2 ready ≡ none) × NoneBelow ready 3)
    ⊎ ((k : ℕ) × (r : ℕ) × (poll_call 2 ready ≡ some k)
        × (get_elem? ready k ≡ some r)
        × (0 < r)
        × NoneBelow ready k)
poll_call_lem_example = poll_call_lem 2 ready (omega arith)
