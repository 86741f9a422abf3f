-- ===== src/Rcopy/Storing.antt =====
-- Storing a packet in the window of the receiver (project_3/rcopy.c), and its RRs and SREJs, keep its
-- invariant.
use native.Mathlib.Decide.{ℕ_discrete, dec_lt}
use remotecopy.Base.{
  ℕ, zero, suc, ◌+◌, ◌-◌, ◌≤◌, ◌<◌, ◌≡◌, refl, subst, inr, Option, none, some, List, length, inc32,
  arith,
}
use remotecopy.Base.Control.{ok}
use remotecopy.Pdu.{Pdu, fields}
use remotecopy.Window.{WindowArray, Packet, new_packet, add_pdu, packet_pdu_size}
use remotecopy.Window.Slot.{
  stored, put_slot, stored-total, stored-put_self, stored-put_ne, put_slot-IsWindow,
}
use remotecopy.Window.Store.{add_pdu_free, add_pdu_taken}
use remotecopy.Rcopy.State.{System, Receiver}
use remotecopy.Rcopy.Send.{send_rr, send_srej, srej_rounds, send_srejs}
use remotecopy.Rcopy.Genuine.{Genuine, Reply}
use remotecopy.Rcopy.Invariant.{
  IsReceiving, IsHeld, HeldFrom, replace-IsReceiving, highest-IsWindow, Held-highest,
}

module _ (sys : System) (room : ℕ) (chunks : List (List ℕ)) (limit wide begun : ℕ) where
  abbrev Ok : Receiver → Type 0
  Ok = IsReceiving sys room chunks limit wide begun

  -- Storing a packet under a number succeeds, leaves the current slot as it was, and keeps the
  -- invariant once `highest` has been raised to the number.
  abbrev pub Stores : Receiver → List ℕ → ℕ → Type 0
  Stores r buffer n =
      (w' : WindowArray) × (add_pdu r.window buffer n ≡ ok w')
      × (stored w' r.window.current ≡ stored r.window r.window.current)
      × (w'.current ≡ r.window.current)
      × (w'.highest ≡ r.window.highest)
      × ((h : ℕ)
          → r.window.highest ≤ h
          → n ≤ h
          → h ≤ length chunks
          → h < r.window.current + r.window.window_size
          → Ok (record r { window = record w' { highest = h } }))
      × (w'.window_size ≡ r.window.window_size)

  -- A packet beyond the current one is stored, unless it is there already.
  pub store-IsReceiving :
      (r : Receiver) (buffer : List ℕ) (p : Pdu)
      → Ok r
      → room ≤ packet_pdu_size
      → length buffer ≤ room
      → fields buffer ≡ some p
      → Genuine chunks limit p
      → r.window.current < p.sequence_number
      → p.sequence_number < r.window.current + r.window.window_size
      → p.sequence_number ≤ length chunks
      → Stores r buffer p.sequence_number
  store-IsReceiving r buffer p v fits short e g lo hi last =
      store_cases (stored-total w n v.window).0 (stored-total w n v.window).1
    where
      w : WindowArray
      w = r.window

      n : ℕ
      n = p.sequence_number

      filled : WindowArray
      filled = put_slot w n (some (new_packet n buffer))

      held_packet : IsHeld room chunks limit n (new_packet n buffer)
      held_packet = record {
        size = refl;
        fits = short;
        parts = p;
        parsed = e;
        number = refl;
        genuine = g;
      }

      held_filled :
          (h : ℕ)
          → w.highest ≤ h
          → n ≤ h
          → HeldFrom room chunks limit (record filled { highest = h })
      held_filled h old new m l u = elim (ℕ_discrete n m) [
        | yes q ↦ inr (
          new_packet n buffer,
          subst (λ k. stored filled k ≡ some (some (new_packet n buffer))) q
              (stored-put_self w n (some (new_packet n buffer)) v.window),
          omega arith,
          subst (λ k. IsHeld room chunks limit k (new_packet n buffer)) q held_packet,
        )
        | no ne ↦
            rw (stored-put_ne w w.current n m (some (new_packet n buffer)) (omega arith) hi l u ne)
              (Held-highest sys room chunks limit wide begun w h m old (v.held m l u))
      ]

      store_cases : (c : Option Packet) → stored w n ≡ some c → Stores r buffer n
      store_cases none q = (
        filled,
        add_pdu_free w n v.window (omega (arith, v.small)) buffer (omega arith) q,
        stored-put_ne w w.current n w.current (some (new_packet n buffer)) (omega arith) hi
            (omega arith) (omega (arith, v.window.positive)) (λ k. omega arith),
        refl,
        refl,
        λ h old new top near.
            replace-IsReceiving sys room chunks limit wide begun r (record filled { highest = h }) v
              (highest-IsWindow sys room chunks limit wide begun filled h
                (put_slot-IsWindow w n (some (new_packet n buffer)) v.window))
              refl refl refl refl top near (held_filled h old new),
        refl,
      )
      store_cases (some x) q = (
        w,
        add_pdu_taken w n v.window (omega (arith, v.small)) buffer x q,
        refl,
        refl,
        refl,
        λ h old new top near.
            replace-IsReceiving sys room chunks limit wide begun r (record w { highest = h }) v
              (highest-IsWindow sys room chunks limit wide begun w h v.window) refl refl refl refl
              top near
              (λ m l u. Held-highest sys room chunks limit wide begun w h m old (v.held m l u)),
        refl,
      )

  -- Asking for packets changes nothing but the datagrams sent and their number.
  srej-IsReceiving : (r : Receiver) (i : ℕ) → Ok r → i < limit → Ok (send_srej sys i r)
  unfolding send_srej
  srej-IsReceiving r i v h = record {
    window = v.window;
    lower = v.lower;
    upper = v.upper;
    width = v.width;
    from = v.from;
    current = v.current;
    reached = v.reached;
    highest = v.highest;
    near = v.near;
    small = v.small;
    number = omega arith;
    file = v.file;
    replies = (Reply.srej r.sequence_number i v.number h refl, v.replies);
    held = v.held;
  }

  srej_rounds-IsReceiving :
      (n i : ℕ) (r : Receiver)
      → Ok r
      → i + n ≤ limit
      → limit ≤ length chunks
      → Ok (srej_rounds sys n i r)
  unfolding srej_rounds
  srej_rounds-IsReceiving zero i r v h k = v
  srej_rounds-IsReceiving (suc n) i r v h k =
      srej_rounds-IsReceiving n (inc32 i) (send_srej sys i r) (srej-IsReceiving r i v (omega arith))
        (omega (arith, v.small)) k

  pub send_srejs-IsReceiving :
      (from until : ℕ) (r : Receiver)
      → Ok r
      → until ≤ limit
      → limit ≤ length chunks
      → Ok (send_srejs sys from until r)
  unfolding send_srejs
  send_srejs-IsReceiving from until r v h k = elim (dec_lt from until) [
    | yes p ↦ srej_rounds-IsReceiving (until - from) from r v (omega arith) k
    | no p ↦ subst (λ k. Ok (srej_rounds sys k from r)) {x = 0} {y = until - from} (omega arith) v
  ]

  -- An answer to a packet that is there already.
  pub send_rr-IsReceiving :
      (r : Receiver) (n : ℕ) → Ok r → n ≤ r.window.current → Ok (send_rr sys n r)
  unfolding send_rr
  send_rr-IsReceiving r n v h = record {
    window = v.window;
    lower = v.lower;
    upper = v.upper;
    width = v.width;
    from = v.from;
    current = v.current;
    reached = v.reached;
    highest = v.highest;
    near = v.near;
    small = v.small;
    number = omega arith;
    file = v.file;
    replies = (Reply.rr r.sequence_number n v.number h refl, v.replies);
    held = v.held;
  }

module _ (sys : System) where
  window-srej_rounds : (n i : ℕ) (r : Receiver) → (srej_rounds sys n i r).window ≡ r.window
  unfolding srej_rounds
  window-srej_rounds zero i r = refl
  window-srej_rounds (suc n) i r = window-srej_rounds n (inc32 i) (send_srej sys i r)

  pub window-send_srejs :
      (from until : ℕ) (r : Receiver) → (send_srejs sys from until r).window ≡ r.window
  unfolding send_srejs
  window-send_srejs from until r = window-srej_rounds (until - from) from r
