-- ===== src/Window/Lookup.antt =====
-- The operations of project_3/window.c against each other: what is stored under a number is what is
-- found under it, and nothing else changes.
use native.Mathlib.Decide.{dec_lt}
use remotecopy.Base.{
  ℕ, ◌+◌, ◌^◌, ◌<◌, ◌≤◌, ◌≡◌, ◌≢◌, sym, ◌∙◌, Option, true, false, none, some, List, length, arith,
}
use remotecopy.Base.Control.{ok}
use remotecopy.Window.{
  WindowArray, Packet, new_packet, packet_pdu_size, add_pdu, get_pdu, remove_pdu, check_pdu_valid,
}
use remotecopy.Window.Slot.{
  IsWindow, stored, put_slot, put_slot-IsWindow, stored-put_self, stored-put_ne, stored-total,
}
use remotecopy.Window.Store.{
  add_pdu_free, get_pdu_taken, check_pdu_valid_taken, remove_pdu_taken, get_pdu_free,
  check_pdu_valid_free, get_pdu_overflow,
}

-- What get_PDU finds depends on the slot alone.
get_pdu-same :
    (w w' : WindowArray) (room m : ℕ)
    → IsWindow w
    → IsWindow w'
    → m < 2 ^ 31
    → stored w' m ≡ stored w m
    → get_pdu w' room m ≡ get_pdu w room m
get_pdu-same w w' room m v v' h e = by_slot (stored-total w m v)
  where
    by_slot : (c : Option Packet) × (stored w m ≡ some c) → get_pdu w' room m ≡ get_pdu w room m
    by_slot (none, q) = get_pdu_free w' m v' h room (e ∙ q) ∙ sym (get_pdu_free w m v h room q)
    by_slot (some p, q) = elim (dec_lt room p.pdu_length) [
      | yes long ↦
          get_pdu_overflow w' m v' h room p (e ∙ q) long
          ∙ sym (get_pdu_overflow w m v h room p q long)
      | no short ↦
          get_pdu_taken w' m v' h room p (e ∙ q) (omega arith)
          ∙ sym (get_pdu_taken w m v h room p q (omega arith))
    ]

-- In the numbers from `low` on of one window, get_PDU finds in both the same, but for `n`.
abbrev pub SameBut : ℕ → ℕ → ℕ → WindowArray → WindowArray → Type 0
SameBut low n room w w' =
    (m : ℕ)
    → low ≤ m
    → m < low + w.window_size
    → m < 2 ^ 31
    → n ≢ m
    → get_pdu w' room m ≡ get_pdu w room m

module _ (w : WindowArray) (n low room : ℕ) (v : IsWindow w) (h : n < 2 ^ 31) (from : low ≤ n)
    (upto : n < low + w.window_size) where
  -- add_PDU of a packet whose slot is free, and which fits a slot, makes a window in which get_PDU
  -- with a buffer that is large enough finds the packet, and checkPDUValid holds; remove_PDU then
  -- makes the slot free again. Neither changes what get_PDU finds under another number that is in
  -- the same stretch of `window_size` numbers. The window's array matches its size, and the numbers
  -- are below 2 ^ 31.
  pub remove_pdu-add_pdu :
      (pdu : List ℕ)
      → length pdu ≤ packet_pdu_size
      → length pdu ≤ room
      → stored w n ≡ some none
      → (w' : WindowArray) × (w'' : WindowArray) × (add_pdu w pdu n ≡ ok w')
        × (get_pdu w' room n ≡ ok (some pdu))
        × (check_pdu_valid w' n ≡ ok true)
        × SameBut low n room w w'
        × (remove_pdu w' n ≡ ok w'')
        × (get_pdu w'' room n ≡ ok none)
        × (check_pdu_valid w'' n ≡ ok false)
        × SameBut low n room w' w''
  remove_pdu-add_pdu pdu fits short free = (
    full,
    empty,
    add_pdu_free w n v h pdu fits free,
    get_pdu_taken full n full-IsWindow h room packet taken short,
    check_pdu_valid_taken full n full-IsWindow h packet taken,
    λ m l u k ne.
        get_pdu-same w full room m v full-IsWindow k
          (stored-put_ne w low n m (some packet) from upto l u ne),
    remove_pdu_taken full n full-IsWindow h packet taken,
    get_pdu_free empty n empty-IsWindow h room freed,
    check_pdu_valid_free empty n empty-IsWindow h freed,
    λ m l u k ne.
        get_pdu-same full empty room m full-IsWindow empty-IsWindow k
          (stored-put_ne full low n m none from upto l u ne),
  )
    where
      packet : Packet
      packet = new_packet n pdu

      full : WindowArray
      full = put_slot w n (some packet)

      empty : WindowArray
      empty = put_slot full n none

      full-IsWindow : IsWindow full
      full-IsWindow = put_slot-IsWindow w n (some packet) v

      empty-IsWindow : IsWindow empty
      empty-IsWindow = put_slot-IsWindow full n none full-IsWindow

      taken : stored full n ≡ some (some packet)
      taken = stored-put_self w n (some packet) v

      freed : stored empty n ≡ some none
      freed = stored-put_self full n none full-IsWindow
