-- ===== src/Server/Invariant.antt =====
-- The invariant of the sender (project_3/server.c): its window holds the packets from `lower` up to
-- `current`, and what it has sent are chunks of the file under their numbers.
use native.Mathlib.Nat.{add-mod_right}
use native.Mathlib.Decide.{dec_lt}
use remotecopy.Base.{
  ℕ, zero, suc, ◌+◌, ◌≤◌, ◌<◌, ◌^◌, ◌≡◌, ◌≢◌, refl, sym, ◌∙◌, subst, ◌⊎◌, inl, inr, Option, none,
  some, List, [], ◌∷◌, get_elem?, get_elem?-lt, length, inc32, arith, All, slt_pos, lt→ltb, le→ltb,
}
use remotecopy.Base.Control.{Result, ok}
use remotecopy.Protocol.{data_packet_flag, eof_flag, filename_response_flag}
use remotecopy.Pdu.{create_pdu}
use remotecopy.Window.{WindowArray, Packet, new_packet, increment_lower, increment_upper}
use remotecopy.Window.Slot.{
  IsWindow, stored, put_slot, stored-put_self, stored-put_ne, put_slot-IsWindow,
}
use remotecopy.Window.Store.{remove_pdu_taken}
use remotecopy.Server.Send.{cleaning, cleaning_up_with_rr, distance}

-- A datagram that the sender may have sent, when the packets below `lower` have been acknowledged and
-- the chunks below `current` have been read; the window ends at `edge`. A packet below `lower` may
-- hold anything.
pub data Transmission (in_cksum : List ℕ → ℕ) (chunks : List (List ℕ)) (edge lower current : ℕ)
    (d : List ℕ) : Type 0 where
  response :
      (seq b : ℕ)
      → d ≡ create_pdu in_cksum seq filename_response_flag (b ∷ [])
      → Transmission in_cksum chunks edge lower current d
  chunk :
      (n flag : ℕ) (c : List ℕ)
      → n < current
      → flag ≢ eof_flag
      → get_elem? chunks n ≡ some c
      → d ≡ create_pdu in_cksum n flag c
      → Transmission in_cksum chunks edge lower current d
  last :
      (b : ℕ)
      → current ≡ length chunks
      → length chunks < edge
      → d ≡ create_pdu in_cksum (length chunks) eof_flag (b ∷ [])
      → Transmission in_cksum chunks edge lower current d
  stale :
      (n flag : ℕ) (c : List ℕ)
      → n < lower
      → d ≡ create_pdu in_cksum n flag c
      → Transmission in_cksum chunks edge lower current d

abbrev pub data_packet : (List ℕ → ℕ) → ℕ → List ℕ → Packet
data_packet in_cksum n c = new_packet n (create_pdu in_cksum n data_packet_flag c)

-- `tail` is what the slot of `current` holds.
pub record IsSending (in_cksum : List ℕ → ℕ) (chunks : List (List ℕ)) (tail : Option Packet)
    (w : WindowArray) : Type 0 where
  pub window : IsWindow w
  pub upper : w.upper ≡ w.lower + w.window_size
  pub lower : w.lower ≤ w.current
  pub reach : w.current ≤ w.lower + w.window_size
  pub read : w.current ≤ length chunks
  pub small : length chunks + w.window_size + 1 < 2 ^ 31
  pub held :
      (n : ℕ) (c : List ℕ)
      → w.lower ≤ n
      → n < w.current
      → get_elem? chunks n ≡ some c
      → stored w n ≡ some (some (data_packet in_cksum n c))
  pub next : w.current < w.lower + w.window_size → stored w w.current ≡ some tail
  pub free : (n : ℕ) → w.current < n → n < w.lower + w.window_size → stored w n ≡ some none
  pub ends : (tail ≡ none) ⊎ (w.current < w.lower + w.window_size)

module _ (in_cksum : List ℕ → ℕ) (chunks : List (List ℕ)) (tail : Option Packet) where
  abbrev Ok : WindowArray → Type 0
  Ok = IsSending in_cksum chunks tail

  -- The window once its lowest packet has been taken out and it has moved up by one.
  abbrev slid : WindowArray → WindowArray
  slid w = increment_upper (increment_lower (put_slot w w.lower none))

  stored-slid :
      (w : WindowArray) (n : ℕ)
      → IsWindow w
      → w.lower < n
      → n < w.lower + w.window_size
      → stored (slid w) n ≡ stored w n
  stored-slid w n v l u =
      stored-put_ne w w.lower w.lower n none (omega arith) (omega (arith, v.positive)) (omega arith)
        u (λ e. omega arith)

  stored-slid_wrap :
      (w : WindowArray) (n : ℕ)
      → IsWindow w
      → n ≡ w.lower + w.window_size
      → stored (slid w) n ≡ some none
  stored-slid_wrap w n v e =
      subst (λ m. stored (slid w) m ≡ some none) {x = w.lower + w.window_size} {y = n} (sym e)
        (rw add-mod_right (stored-put_self w w.lower none v))

  slid-IsSending : (w : WindowArray) → Ok w → w.lower < w.current → Ok (slid w)
  slid-IsSending w v h = record {
    window = record {
      positive = v.window.positive;
      small = v.window.small;
      slots = (put_slot-IsWindow w w.lower none v.window).slots;
    };
    upper = omega (arith, v.upper, v.small, v.read, v.reach);
    lower = omega (arith, v.small, v.read);
    reach = omega (arith, v.small, v.read, v.reach);
    read = v.read;
    small = v.small;
    held = λ n c l u e.
        stored-slid w n v.window (omega (arith, up)) (omega (arith, v.reach))
        ∙ v.held n c (omega (arith, up)) u e;
    next = next;
    free = free;
    ends = ends v.ends;
  }
    where
      up : inc32 w.lower ≡ suc w.lower
      up = omega (arith, v.small, v.read)

      next : w.current < inc32 w.lower + w.window_size → stored (slid w) w.current ≡ some tail
      next u = elim (dec_lt w.current (w.lower + w.window_size)) [
        | yes p ↦ stored-slid w w.current v.window h p ∙ v.next p
        | no p ↦ elim v.ends [
          | inl e ↦ rw e (stored-slid_wrap w w.current v.window (omega (arith, v.reach)))
          | inr q ↦ absurd (p q)
        ]
      ]

      free :
          (n : ℕ)
          → w.current < n
          → n < inc32 w.lower + w.window_size
          → stored (slid w) n ≡ some none
      free n l u = elim (dec_lt n (w.lower + w.window_size)) [
        | yes p ↦ stored-slid w n v.window (omega arith) p ∙ v.free n l p
        | no p ↦ stored-slid_wrap w n v.window (omega (arith, up))
      ]

      ends :
          (tail ≡ none) ⊎ (w.current < w.lower + w.window_size)
          → (tail ≡ none) ⊎ (w.current < inc32 w.lower + w.window_size)
      ends (inl e) = inl e
      ends (inr q) = inr (omega (arith, up))

  -- What cleaning_up_with_RR makes of a window: it is moved up to the number, and nothing else.
  pub record IsCleaned (rr : ℕ) (w w' : WindowArray) : Type 0 where
    pub kept : Ok w'
    pub current : w'.current ≡ w.current
    pub size : w'.window_size ≡ w.window_size
    pub above : w.lower ≤ w'.lower
    pub reached : rr ≤ w'.lower
    pub exact : w.lower ≤ rr → w'.lower ≡ rr
    pub still : rr ≤ w.lower → w'.lower ≡ w.lower

  abbrev pub Cleans : ℕ → WindowArray → Result WindowArray → Type 0
  Cleans rr w r = (w' : WindowArray) × (r ≡ ok w') × IsCleaned rr w w'

  cleaning-Cleans :
      (n rr : ℕ) (w : WindowArray)
      → Ok w
      → rr ≤ w.current
      → rr ≤ w.lower + n
      → Cleans rr w (cleaning n rr w)
  unfolding cleaning
  cleaning-Cleans zero rr w v le h = (
    w,
    refl,
    record {
      kept = v;
      current = refl;
      size = refl;
      above = omega arith;
      reached = omega arith;
      exact = λ k. omega arith;
      still = λ k. refl;
    },
  )
  cleaning-Cleans (suc n) rr w v le h = elim (dec_lt w.lower rr) [
    | yes p ↦
        let (c, e) = get_elem?-lt chunks w.lower (omega (arith, v.read)) in
        let (w', q, k) =
          cleaning-Cleans n rr (slid w) (slid-IsSending w v (omega arith)) le
            (omega (arith, v.small, v.read)) in
        (
          w',
          rw
              (
                slt_pos w.lower rr (omega (arith, v.small, v.read))
                    (omega (arith, v.small, v.read)),
                lt→ltb w.lower rr p,
                remove_pdu_taken w w.lower v.window (omega (arith, v.small, v.read))
                    (data_packet in_cksum w.lower c)
                    (v.held w.lower c (omega arith) (omega arith) e),
              )
              q,
          record {
            kept = k.kept;
            current = k.current;
            size = k.size;
            above = omega (arith, k.above, v.small, v.read);
            reached = k.reached;
            exact = λ z. k.exact (omega (arith, v.small, v.read));
            still = λ z. absurd (omega arith);
          },
        )
    | no p ↦ (
      w,
      rw (
        slt_pos w.lower rr (omega (arith, v.small, v.read, v.lower))
            (omega (arith, v.small, v.read)),
        le→ltb w.lower rr (omega arith),
      ),
      record {
        kept = v;
        current = refl;
        size = refl;
        above = omega arith;
        reached = omega arith;
        exact = λ k. omega arith;
        still = λ k. refl;
      },
    )
  ]

  -- cleaning_up_with_RR, for a window that satisfies the sender's invariant and a number that is
  -- not beyond its current one, succeeds: the lower edge is at the number afterwards, or stays if
  -- it is there or beyond, current number and size stay, and the invariant is kept. The rounds of
  -- the model's loop suffice.
  pub cleaning_up_with_rr-Cleans :
      (rr : ℕ) (w : WindowArray) → Ok w → rr ≤ w.current → Cleans rr w (cleaning_up_with_rr rr w)
  unfolding cleaning_up_with_rr
  cleaning_up_with_rr-Cleans rr w v le =
      cleaning-Cleans (distance w.lower rr) rr w v le (omega (arith, v.small, v.read, v.lower))

module _ (in_cksum : List ℕ → ℕ) (chunks : List (List ℕ)) (g g' l l' c c' : ℕ) (e : g ≤ g')
    (k : l ≤ l') (h : c ≤ c') (top : c' ≤ length chunks) where
  Transmission-mono :
      (d : List ℕ) → Transmission in_cksum chunks g l c d → Transmission in_cksum chunks g' l' c' d
  Transmission-mono d (response s b q) = response s b q
  Transmission-mono d (chunk n flag x lt ne q z) = chunk n flag x (omega arith) ne q z
  Transmission-mono d (last b q lt z) = last b (omega arith) (omega arith) z
  Transmission-mono d (stale n flag x lt z) = stale n flag x (omega arith) z

  pub All-Transmission-mono :
      (ds : List (List ℕ))
      → All (Transmission in_cksum chunks g l c) ds
      → All (Transmission in_cksum chunks g' l' c') ds
  All-Transmission-mono [] a = tt
  All-Transmission-mono (d ∷ ds) a = (Transmission-mono d a.0, All-Transmission-mono ds a.1)
