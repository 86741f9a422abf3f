-- ===== src/Window/Slot.antt =====
-- A window whose array matches its size, and the slot of each sequence number
-- (project_3/window.c).
use native.Mathlib.Nat.{mod-lt}
use remotecopy.Base.{
  ℕ, ◌+◌, ◌%◌, ◌^◌, ◌<◌, ◌≤◌, ◌≡◌, ◌≢◌, Option, none, some, length, get_elem?, set, arith,
  get_elem?-set_self, get_elem?-set_ne, get_elem?-lt, length-set, length-replicate,
  get_elem?-replicate,
}
use remotecopy.Base.Slots.{mod-ne_window}
use remotecopy.Base.Control.{ok}
use remotecopy.Window.{WindowArray, Packet, make_window, slot_index, slot}

-- The array has `window_size` slots, and there is one at least.
pub record IsWindow (w : WindowArray) : Type 0 where
  pub positive : 0 < w.window_size
  pub small : w.window_size < 2 ^ 31
  pub slots : length w.array ≡ w.window_size

-- The window with the slot of `n` overwritten.
abbrev pub put_slot : WindowArray → ℕ → Option Packet → WindowArray
put_slot w n c = record w { array = set w.array (n % w.window_size) c }

abbrev pub stored : WindowArray → ℕ → Option (Option Packet)
stored w n = get_elem? w.array (n % w.window_size)

pub slot_index_pos : (n size : ℕ) → 0 < size → n < 2 ^ 31 → slot_index n size ≡ ok (n % size)
unfolding slot_index
slot_index_pos n size h k = ground arith

pub put_slot-IsWindow :
    (w : WindowArray) (n : ℕ) (c : Option Packet) → IsWindow w → IsWindow (put_slot w n c)
put_slot-IsWindow w n c v = record {
  positive = v.positive;
  small = v.small;
  slots = rw (length-set w.array (n % w.window_size) c) v.slots;
}

pub stored-total :
    (w : WindowArray) (n : ℕ) → IsWindow w → (c : Option Packet) × (stored w n ≡ some c)
stored-total w n v = get_elem?-lt w.array (n % w.window_size) (rw v.slots (mod-lt n v.positive))

pub stored-put_self :
    (w : WindowArray) (n : ℕ) (c : Option Packet) → IsWindow w → stored (put_slot w n c) n ≡ some c
stored-put_self w n c v =
    get_elem?-set_self w.array (n % w.window_size) c (rw v.slots (mod-lt n v.positive))

pub stored-put_ne :
    (w : WindowArray) (l n m : ℕ) (c : Option Packet)
    → l ≤ n
    → n < l + w.window_size
    → l ≤ m
    → m < l + w.window_size
    → n ≢ m
    → stored (put_slot w n c) m ≡ stored w m
stored-put_ne w l n m c ln nw lm mw ne =
    get_elem?-set_ne w.array (n % w.window_size) (m % w.window_size) c
      (mod-ne_window l n m w.window_size ln nw lm mw ne)

pub slot-stored :
    (w : WindowArray) (n : ℕ) (c : Option Packet)
    → IsWindow w
    → n < 2 ^ 31
    → stored w n ≡ some c
    → slot w n ≡ ok c
unfolding slot
slot-stored w n c v h e = ground (arith, slot_index_pos n w.window_size v.positive h)

pub make_window-IsWindow :
    (size : ℕ) (w : WindowArray)
    → 0 < size
    → make_window size ≡ some w
    → IsWindow w × (w.window_size ≡ size)
unfolding make_window
make_window-IsWindow size w h e = ground (arith, length-replicate {0} {A = Option Packet} size none)

pub make_window-stored :
    (size n : ℕ) (w : WindowArray) → 0 < size → make_window size ≡ some w → stored w n ≡ some none
unfolding make_window
make_window-stored size n w h e =
    ground (arith, get_elem?-replicate {0} {A = Option Packet} size (n % size) none, mod-lt n h)
