-- ===== src/Window/Memory.antt =====
-- free_window and print_window of project_3/window.c.
use remotecopy.Base.{
  ℕ, zero, suc, ◌+◌, ◌≤◌, ◌≡◌, refl, ap, Option, none, some, List, [], ◌∷◌, ◌++◌, drop, length,
  get_elem?, get_elem?-lt, if◌then◌else◌, is_neg, inc32, ◌-◌, ◌%◌, ◌^◌, arith,
}
use remotecopy.Base.Control.{Result, ok, ◌>>=◌}
use remotecopy.Window.{WindowArray, Packet, cell, slot}
use remotecopy.Window.Slot.{IsWindow}

-- What `free` is given: the packet of a slot, the array of pointers, the window itself.
pub data Block : Type 0 where
  packet : ℕ → Block
  pointers header : Block

abbrev pub freed : ℕ → Option Packet → List Block → List Block
freed i none blocks = blocks
freed i (some p) blocks = packet i ∷ blocks

-- The loop from slot `i` on, for a number of slots.
unfoldable pub free_slots : ℕ → ℕ → List (Option Packet) → Result (List Block)
free_slots zero i slots = ok []
free_slots (suc n) i slots =
    cell slots i >>= λ c. free_slots n (suc i) slots >>= λ blocks. ok (freed i c blocks)

abbrev pub slots_of : WindowArray → ℕ
slots_of w = if is_neg w.window_size then 0 else w.window_size

-- The blocks in the order in which they are freed; `none` is NULL.
unfoldable pub free_window : Option WindowArray → Result (List Block)
unfolding free_slots
free_window none = ok []
free_window (some w) =
    free_slots (slots_of w) 0 w.array >>= λ blocks. ok (blocks ++ pointers ∷ header ∷ [])

-- The packets that an array holds, by their slots.
unfoldable pub held_packets : ℕ → List (Option Packet) → List Block
held_packets i [] = []
held_packets i (none ∷ slots) = held_packets (suc i) slots
held_packets i (some p ∷ slots) = packet i ∷ held_packets (suc i) slots

held-cons :
    (i : ℕ) (c : Option Packet) (slots : List (Option Packet))
    → held_packets i (c ∷ slots) ≡ freed i c (held_packets (suc i) slots)
unfolding held_packets
held-cons i none slots = refl
held-cons i (some p) slots = refl

drop-get :
    (xs : List (Option Packet)) (i : ℕ) (c : Option Packet)
    → get_elem? xs i ≡ some c
    → drop i xs ≡ c ∷ drop (suc i) xs
drop-get [] i c e = absurd (cc)
drop-get (x ∷ xs) zero c e = ap (λ y. y ∷ xs) (cc)
drop-get (x ∷ xs) (suc i) c e = drop-get xs i c e

drop-all : (xs : List (Option Packet)) (i : ℕ) → length xs ≤ i → drop i xs ≡ []
drop-all [] zero h = refl
drop-all [] (suc i) h = refl
drop-all (x ∷ xs) zero h = absurd (omega arith)
drop-all (x ∷ xs) (suc i) h = drop-all xs i (omega arith)

free_slots-held_packets :
    (n i : ℕ) (slots : List (Option Packet))
    → i + n ≡ length slots
    → free_slots n i slots ≡ ok (held_packets i (drop i slots))
unfolding free_slots held_packets
free_slots-held_packets zero i slots e = rw (drop-all slots i (omega arith)) refl
free_slots-held_packets (suc n) i slots e =
    let (c, q) = get_elem?-lt slots i (omega arith) in
    ground (
      arith,
      free_slots-held_packets n (suc i) slots,
      drop-get slots i c,
      held-cons i c (drop (suc i) slots),
    )

-- free_window of a window whose array matches its size frees exactly the packets that the array
-- holds, by their slots, each once, then the array and the window.
pub free_window-held_packets :
    (w : WindowArray)
    → IsWindow w
    → free_window (some w) ≡ ok (held_packets 0 w.array ++ pointers ∷ header ∷ [])
unfolding free_window
free_window-held_packets w v = ground (arith, free_slots-held_packets w.window_size 0 w.array)

-- What print_window prints: the fields, and the sequence numbers of the packets.
pub record Shown : Type 0 where
  pub window_size : ℕ
  pub lower : ℕ
  pub upper : ℕ
  pub current : ℕ
  pub highest : ℕ
  pub populated : List ℕ

abbrev pub listed : Option Packet → List ℕ → List ℕ
listed none rest = rest
listed (some p) rest = p.sequence_number ∷ rest

-- The loop from number `i` on, for a number of rounds.
unfoldable pub print_slots : ℕ → ℕ → WindowArray → Result (List ℕ)
unfolding slot
print_slots zero i w = ok []
print_slots (suc n) i w = slot w i >>= λ c. print_slots n (inc32 i) w >>= λ rest. ok (listed c rest)

-- `upper - lower` between `int32_t`s, and 0 where that is negative.
unfoldable pub print_window : WindowArray → Result Shown
unfolding print_slots
print_window w =
    print_slots ((w.upper + 2 ^ 31) % 2 ^ 32 - (w.lower + 2 ^ 31) % 2 ^ 32) w.lower w >>= λ numbers.
    ok (record {
      window_size = w.window_size;
      lower = w.lower;
      upper = w.upper;
      current = w.current;
      highest = w.highest;
      populated = numbers;
    })
