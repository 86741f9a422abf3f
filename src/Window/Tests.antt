-- ===== src/Window/Tests.antt =====
-- project_3/window.c at a concrete input: a packet that shares its window with another one.
use remotecopy.Base.{◌++◌, ◌≡◌, refl, true, false, none, some, List, [], ◌∷◌, ℕ, arith}
use remotecopy.Base.Control.{ok}
use remotecopy.Window.{WindowArray, add_pdu, get_pdu, remove_pdu, check_pdu_valid}
use remotecopy.Window.Slot.{IsWindow}
use remotecopy.Window.Memory.{
  packet, pointers, header, free_window, held_packets, free_window-held_packets,
}
use remotecopy.Window.Lookup.{SameBut, remove_pdu-add_pdu}

-- Packet 7 is in slot 1 of 3; packet 8 comes to slot 2.
abbrev some_window : WindowArray
some_window = record {
  array =
      none
      ∷ some (record { sequence_number = 7; pdu_length = 2; flag = 0; pdu = 1 ∷ 2 ∷ [] })
      ∷ none
      ∷ [];
  upper = 10;
  lower = 7;
  current = 7;
  window_size = 3;
  highest = 7;
}

some_window-IsWindow : IsWindow some_window
some_window-IsWindow = record { positive = omega arith; small = omega arith; slots = refl }

abbrev bytes : List ℕ
bytes = 5 ∷ 6 ∷ []

remove_pdu-add_pdu_example :
    (w' : WindowArray) × (w'' : WindowArray) × (add_pdu some_window bytes 8 ≡ ok w')
    × (get_pdu w' 9 8 ≡ ok (some bytes))
    × (check_pdu_valid w' 8 ≡ ok true)
    × SameBut 7 8 9 some_window w'
    × (remove_pdu w' 8 ≡ ok w'')
    × (get_pdu w'' 9 8 ≡ ok none)
    × (check_pdu_valid w'' 8 ≡ ok false)
    × SameBut 7 8 9 w' w''
remove_pdu-add_pdu_example =
    remove_pdu-add_pdu some_window 8 7 9 some_window-IsWindow (omega arith) (omega arith)
      (omega arith) bytes (omega arith) (omega arith) refl

free_window-held_packets_example :
    free_window (some some_window) ≡ ok (held_packets 0 some_window.array ++ pointers ∷ header ∷ [])
free_window-held_packets_example = free_window-held_packets some_window some_window-IsWindow

all_freed : held_packets 0 some_window.array ≡ packet 1 ∷ []
unfolding held_packets
all_freed = refl
