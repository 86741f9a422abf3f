-- ===== src/Window/Store.antt =====
-- What the operations of project_3/window.c do to the slots.
use remotecopy.Base.{ℕ, ◌^◌, ◌<◌, ◌≤◌, ◌≡◌, true, false, none, some, List, length, arith}
use remotecopy.Base.Control.{ok, fault, overflow}
use remotecopy.Window.{
  WindowArray, Packet, new_packet, packet_pdu_size, add_pdu, get_pdu, remove_pdu, check_pdu_valid,
}
use remotecopy.Window.Slot.{IsWindow, stored, put_slot, slot_index_pos}

module _ (w : WindowArray) (n : ℕ) (v : IsWindow w) (h : n < 2 ^ 31) where
  pub add_pdu_free :
      (pdu : List ℕ)
      → length pdu ≤ packet_pdu_size
      → stored w n ≡ some none
      → add_pdu w pdu n ≡ ok (put_slot w n (some (new_packet n pdu)))
  unfolding add_pdu
  add_pdu_free pdu short e = ground (arith, slot_index_pos n w.window_size v.positive h)

  pub add_pdu_taken :
      (pdu : List ℕ) (p : Packet) → stored w n ≡ some (some p) → add_pdu w pdu n ≡ ok w
  unfolding add_pdu
  add_pdu_taken pdu p e = ground (arith, slot_index_pos n w.window_size v.positive h)

  pub remove_pdu_taken :
      (p : Packet) → stored w n ≡ some (some p) → remove_pdu w n ≡ ok (put_slot w n none)
  unfolding remove_pdu
  remove_pdu_taken p e = ground (arith, slot_index_pos n w.window_size v.positive h)

  pub remove_pdu_free : stored w n ≡ some none → remove_pdu w n ≡ ok w
  unfolding remove_pdu
  remove_pdu_free e = ground (arith, slot_index_pos n w.window_size v.positive h)

  pub get_pdu_taken :
      (room : ℕ) (p : Packet)
      → stored w n ≡ some (some p)
      → p.pdu_length ≤ room
      → get_pdu w room n ≡ ok (some p.pdu)
  unfolding get_pdu
  get_pdu_taken room p e short = ground (arith, slot_index_pos n w.window_size v.positive h)

  pub get_pdu_free : (room : ℕ) → stored w n ≡ some none → get_pdu w room n ≡ ok none
  unfolding get_pdu
  get_pdu_free room e = ground (arith, slot_index_pos n w.window_size v.positive h)

  pub check_pdu_valid_taken :
      (p : Packet) → stored w n ≡ some (some p) → check_pdu_valid w n ≡ ok true
  unfolding check_pdu_valid
  check_pdu_valid_taken p e = ground (arith, slot_index_pos n w.window_size v.positive h)

  pub check_pdu_valid_free : stored w n ≡ some none → check_pdu_valid w n ≡ ok false
  unfolding check_pdu_valid
  check_pdu_valid_free e = ground (arith, slot_index_pos n w.window_size v.positive h)

  pub get_pdu_overflow :
      (room : ℕ) (p : Packet)
      → stored w n ≡ some (some p)
      → room < p.pdu_length
      → get_pdu w room n ≡ fault overflow
  unfolding get_pdu
  get_pdu_overflow room p e long = ground (arith, slot_index_pos n w.window_size v.positive h)
