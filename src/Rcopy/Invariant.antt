-- ===== src/Rcopy/Invariant.antt =====
-- The invariant of the receiver (project_3/rcopy.c), and the steps that keep it: storing a packet,
-- emptying a slot, accepting a chunk.
use native.Mathlib.Nat.{add-mod_right}
use native.Mathlib.Decide.{ℕ_discrete, dec_lt}
use remotecopy.Base.{
  ℕ, suc, ◌+◌, ◌≤◌, ◌<◌, ◌^◌, ◌≡◌, refl, sym, ap, ◌∙◌, subst, ◌⊎◌, inl, inr, none, some, List, ◌++◌,
  take, get_elem?, length, inc32, arith, All,
}
use remotecopy.Base.Chunks.{concat, concat-take-suc, get_elem?-some_lt}
use remotecopy.Pdu.{Pdu, fields}
use remotecopy.Window.{WindowArray, Packet}
use remotecopy.Window.Slot.{
  IsWindow, stored, put_slot, stored-put_self, stored-put_ne, put_slot-IsWindow,
}
use remotecopy.Rcopy.State.{System, Receiver}
use remotecopy.Rcopy.Send.{send_rr, advance}
use remotecopy.Rcopy.Genuine.{Genuine, Reply, All-Reply-mono}

-- A stored packet is genuine, and is the one that its slot is for.
pub record IsHeld (room : ℕ) (chunks : List (List ℕ)) (limit n : ℕ) (p : Packet) : Type 0 where
  pub size : p.pdu_length ≡ length p.pdu
  pub fits : length p.pdu ≤ room
  pub parts : Pdu
  pub parsed : fields p.pdu ≡ some parts
  pub number : parts.sequence_number ≡ n
  pub genuine : Genuine chunks limit parts

-- The slot of a number is empty, or holds its packet, and `highest` is no smaller.
abbrev pub Held : ℕ → List (List ℕ) → ℕ → WindowArray → ℕ → Type 0
Held room chunks limit w n =
    (stored w n ≡ some none)
    ⊎ ((p : Packet) × (stored w n ≡ some (some p)) × (n ≤ w.highest) × IsHeld room chunks limit n p)

abbrev pub HeldFrom : ℕ → List (List ℕ) → ℕ → WindowArray → Type 0
HeldFrom room chunks limit w =
    (n : ℕ) → w.current ≤ n → n < w.current + w.window_size → Held room chunks limit w n

-- The window starts at the first chunk that has not been written; it holds genuine packets, and the
-- file holds the chunks before it.
pub record IsReceiving (sys : System) (room : ℕ) (chunks : List (List ℕ)) (limit wide begun : ℕ)
    (r : Receiver) : Type 0 where
  pub window : IsWindow r.window
  pub lower : r.window.lower ≡ r.window.current
  pub upper : r.window.upper ≡ r.window.current + r.window.window_size
  pub width : r.window.window_size ≡ wide
  pub from : begun ≤ r.window.current
  pub current : r.window.current ≤ length chunks
  pub reached : r.window.current ≤ limit
  pub highest : r.window.highest ≤ length chunks
  pub near : r.window.highest < r.window.current + r.window.window_size
  pub small : length chunks + r.window.window_size + 1 < 2 ^ 31
  pub number : r.sequence_number < 2 ^ 32
  pub file : r.file ≡ concat (take r.window.current chunks)
  pub replies : All (Reply sys.in_cksum chunks limit r.window.current) r.sent
  pub held : HeldFrom room chunks limit r.window

-- No packet is stored.
abbrev pub IsEmpty : WindowArray → Type 0
IsEmpty w = (n : ℕ) → w.current ≤ n → n < w.current + w.window_size → stored w n ≡ some none

module _ (sys : System) (room : ℕ) (chunks : List (List ℕ)) (limit wide begun : ℕ) where
  abbrev Ok : Receiver → Type 0
  Ok = IsReceiving sys room chunks limit wide begun

  -- The slot behind the window is the slot of its first number.
  stored_wrap : (w : WindowArray) (n : ℕ) → stored w (n + w.window_size) ≡ stored w n
  stored_wrap w n = rw add-mod_right

  -- Another window of the same numbers.
  pub replace-IsReceiving :
      (r : Receiver) (w : WindowArray)
      → Ok r
      → IsWindow w
      → w.lower ≡ r.window.lower
      → w.upper ≡ r.window.upper
      → w.current ≡ r.window.current
      → w.window_size ≡ r.window.window_size
      → w.highest ≤ length chunks
      → w.highest < w.current + w.window_size
      → HeldFrom room chunks limit w
      → Ok (record r { window = w })
  replace-IsReceiving r w v i lower upper current size highest near held = record {
    window = i;
    lower = omega (arith, v.lower);
    upper = omega (arith, v.upper);
    width = size ∙ v.width;
    from = omega (arith, v.from);
    current = omega (arith, v.current);
    reached = omega (arith, v.reached);
    highest = highest;
    near = near;
    small = omega (arith, v.small);
    number = v.number;
    file = rw current v.file;
    replies = rw current v.replies;
    held = held;
  }

  pub highest-IsWindow :
      (w : WindowArray) (h : ℕ) → IsWindow w → IsWindow (record w { highest = h })
  highest-IsWindow w h i = record { positive = i.positive; small = i.small; slots = i.slots }

  pub Held-highest :
      (w : WindowArray) (h n : ℕ)
      → w.highest ≤ h
      → Held room chunks limit w n
      → Held room chunks limit (record w { highest = h }) n
  Held-highest w h n le (inl e) = inl e
  Held-highest w h n le (inr (p, e, l, k)) = inr (p, e, omega arith, k)

  -- Emptying the slot of the current number.
  pub remove-IsReceiving :
      (r : Receiver) → Ok r → Ok (record r { window = put_slot r.window r.window.current none })
  remove-IsReceiving r v =
      replace-IsReceiving r (put_slot r.window r.window.current none) v
        (put_slot-IsWindow r.window r.window.current none v.window) refl refl refl refl v.highest
        v.near held
    where
      w : WindowArray
      w = r.window

      held : HeldFrom room chunks limit (put_slot r.window r.window.current none)
      held n l u = elim (ℕ_discrete w.current n) [
        | yes e ↦ inl (
            subst (λ m. stored (put_slot w w.current none) m ≡ some none) e
              (stored-put_self w w.current none v.window))
        | no ne ↦
            rw
              (stored-put_ne w w.current w.current n none (omega arith)
                (omega (arith, v.window.positive)) l u ne)
              (v.held n l u)
      ]

  -- The current chunk is accepted: it is in the file, and its slot is empty.
  pub advance-IsReceiving :
      (r : Receiver) (c : List ℕ)
      → Ok r
      → get_elem? chunks r.window.current ≡ some c
      → stored r.window r.window.current ≡ some none
      → r.window.current < limit
      → let r' = advance (record r { file = r.file ++ c }) in Ok (send_rr sys r'.window.current r')
  unfolding send_rr
  advance-IsReceiving r c v here free sending = record {
    window = record {
      positive = v.window.positive;
      small = v.window.small;
      slots = v.window.slots;
    };
    lower = omega (arith, v.lower);
    upper = omega (arith, v.upper, v.small, below, v.window.small);
    width = v.width;
    from = omega (arith, v.from, below, v.small);
    current = omega (arith, below, v.small);
    reached = omega (arith, below, v.small);
    highest = v.highest;
    near = omega (arith, v.near, below, v.small);
    small = v.small;
    number = omega arith;
    file = rw v.file (
        sym (concat-take-suc chunks r.window.current c here)
        ∙ ap (λ n. concat (take n chunks)) (sym next));
    replies = (
      Reply.rr r.sequence_number (inc32 r.window.current) v.number (omega arith) refl,
      All-Reply-mono sys.in_cksum chunks limit limit r.window.current (inc32 r.window.current)
          (omega arith) (omega (arith, below, v.small)) r.sent v.replies,
    );
    held = held;
  }
    where
      w : WindowArray
      w = r.window

      below : r.window.current < length chunks
      below = get_elem?-some_lt chunks r.window.current c here

      next : inc32 r.window.current ≡ suc r.window.current
      next = omega (arith, below, v.small)

      held : HeldFrom room chunks limit (advance r).window
      held n l u = elim (dec_lt n (w.current + w.window_size)) [
        | yes p ↦ v.held n (omega (arith, next)) p
        | no p ↦ inl (
            subst (λ m. stored w m ≡ some none) {x = w.current + w.window_size} {y = n}
              (omega (arith, next)) (stored_wrap w w.current ∙ free))
      ]

  -- A window without packets stays so when it moves up.
  pub advance-IsEmpty : (r : Receiver) → Ok r → IsEmpty r.window → IsEmpty (advance r).window
  advance-IsEmpty r v empty n l u = elim (dec_lt n (r.window.current + r.window.window_size)) [
    | yes p ↦ empty n (omega (arith, v.small, v.current)) p
    | no p ↦
        subst (λ m. stored r.window m ≡ some none) {x = r.window.current + r.window.window_size}
          {y = n} (omega (arith, v.small, v.current))
          (stored_wrap r.window r.window.current
            ∙ empty r.window.current (omega arith) (omega (arith, v.window.positive)))
  ]

  pub highest-IsReceiving :
      (r : Receiver) (h : ℕ)
      → Ok r
      → IsEmpty r.window
      → h ≤ length chunks
      → h < r.window.current + r.window.window_size
      → Ok (record r { window = record r.window { highest = h } })
  highest-IsReceiving r h v empty top near =
      replace-IsReceiving r (record r.window { highest = h }) v
        (highest-IsWindow r.window h v.window) refl refl refl refl top near
        (λ n l u. inl (empty n l u))
