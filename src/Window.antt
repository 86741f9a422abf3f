-- ===== src/Window.antt =====
-- project_3/window.c and window.h: the window of packets that both programs keep. An `int32_t` is
-- its bit pattern below 2 ^ 32. `malloc` is taken to succeed for every size that is not negative.
pub mod Slot
pub mod Store
pub mod Lookup
pub mod Memory
mod Tests
use remotecopy.Base.{
  ℕ, ◌-◌, ◌%◌, ◌^◌, Bool, true, false, Option, none, some, List, length, get_elem?, get_or, set,
  replicate, ◌==◌, ltb, if◌then◌else◌, is_neg, slt, inc32,
}
use remotecopy.Base.Control.{Result, ok, fault, ◌>>=◌, div_by_zero, out_of_bounds, overflow}

-- `packet`; `pdu_length` bytes of `pdu` are in use, and `pdu` holds those.
pub record Packet : Type 0 where
  pub sequence_number : ℕ
  pub pdu_length : ℕ
  pub flag : ℕ
  pub pdu : List ℕ

-- The size of the array `pdu` of a `packet`.
abbrev pub packet_pdu_size : ℕ
packet_pdu_size = 1407

-- A slot of the array is a pointer to a packet, or NULL.
pub record WindowArray : Type 0 where
  pub array : List (Option Packet)
  pub upper : ℕ
  pub lower : ℕ
  pub current : ℕ
  pub window_size : ℕ
  pub highest : ℕ

-- `none` is NULL: a negative size makes the second `malloc` fail.
unfoldable pub make_window : ℕ → Option WindowArray
make_window size =
    if is_neg size
    then none
    else some (record {
      array = replicate size none;
      upper = size;
      lower = 0;
      current = 0;
      window_size = size;
      highest = 0;
    })

abbrev pub get_current : WindowArray → ℕ
get_current w = w.current

abbrev pub get_lower : WindowArray → ℕ
get_lower w = w.lower

abbrev pub get_highest : WindowArray → ℕ
get_highest w = w.highest

abbrev pub update_highest : WindowArray → ℕ → WindowArray
update_highest w value = record w { highest = value }

abbrev pub increment_lower : WindowArray → WindowArray
increment_lower w = record w { lower = inc32 w.lower }

abbrev pub increment_upper : WindowArray → WindowArray
increment_upper w = record w { upper = inc32 w.upper }

abbrev pub increment_current : WindowArray → WindowArray
increment_current w = record w { current = inc32 w.current }

abbrev pub check_window_open : WindowArray → Bool
check_window_open w = slt w.current w.upper

-- `sequence_number % window_size` as an index of the array. The remainder of a negative number is
-- not positive, so it is an index only if it is 0.
unfoldable pub slot_index : ℕ → ℕ → Result ℕ
slot_index seq size =
    if size == 0
    then fault div_by_zero
    else if is_neg seq
    then (if (2 ^ 32 - seq) % size == 0 then ok 0 else fault out_of_bounds)
    else ok (seq % size)

abbrev pub cell : List (Option Packet) → ℕ → Result (Option Packet)
cell array i = elim (get_elem? array i) [ none ↦ fault out_of_bounds | some c ↦ ok c ]

-- The contents of the slot of a sequence number.
unfoldable pub slot : WindowArray → ℕ → Result (Option Packet)
unfolding slot_index
slot w seq = slot_index seq w.window_size >>= λ i. cell w.array i

unfoldable pub check_pdu_valid : WindowArray → ℕ → Result Bool
unfolding slot
check_pdu_valid w seq = slot w seq >>= λ c. elim c [ none ↦ ok false | some p ↦ ok true ]

-- `room` is the size of the caller's buffer. `none` stands for the result -1, after which the
-- buffer is as it was; otherwise the bytes that are copied, whose number is the result.
unfoldable pub get_pdu : WindowArray → ℕ → ℕ → Result (Option (List ℕ))
unfolding slot
get_pdu w room seq = slot w seq >>= λ c. elim c [
  | none ↦ ok none
  | some p ↦ if ltb room p.pdu_length then fault overflow else ok (some p.pdu)
]

abbrev pub new_packet : ℕ → List ℕ → Packet
new_packet seq pdu = record {
  sequence_number = seq;
  pdu_length = length pdu;
  flag = get_or pdu 6 0;
  pdu = pdu;
}

-- A populated slot is left as it is.
unfoldable pub add_pdu : WindowArray → List ℕ → ℕ → Result WindowArray
unfolding slot_index
add_pdu w pdu seq = slot_index seq w.window_size >>= λ i. cell w.array i >>= λ c. elim c [
  | some p ↦ ok w
  | none ↦
      if ltb packet_pdu_size (length pdu)
      then fault overflow
      else ok (record w { array = set w.array i (some (new_packet seq pdu)) })
]

unfoldable pub remove_pdu : WindowArray → ℕ → Result WindowArray
unfolding slot_index
remove_pdu w seq = slot_index seq w.window_size >>= λ i. cell w.array i >>= λ c. elim c [
  | some p ↦ ok (record w { array = set w.array i none })
  | none ↦ ok w
]
