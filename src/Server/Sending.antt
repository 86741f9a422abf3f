-- ===== src/Server/Sending.antt =====
-- send_data_packet and send_eof (project_3/server.c) keep the sender's invariant.
use native.Mathlib.Decide.{dec_lt}
use remotecopy.Base.{
  ℕ, suc, ◌+◌, ◌≤◌, ◌<◌, ◌≡◌, refl, sym, ap, ◌∙◌, subst, ◌⊎◌, inl, inr, none, some, List, [], ◌∷◌,
  take, get_elem?, length, length-append, inc32, arith,
}
use remotecopy.Base.Chunks.{concat, concat-take-suc, get_elem?-some_lt}
use remotecopy.Base.Control.{ok}
use remotecopy.Protocol.{data_packet_flag, eof_flag}
use remotecopy.Pdu.{create_pdu}
use remotecopy.Pdu.RoundTrip.{length-create_pdu}
use remotecopy.Window.{WindowArray, Packet, increment_current}
use remotecopy.Window.Slot.{stored, put_slot, stored-put_self, stored-put_ne, put_slot-IsWindow}
use remotecopy.Window.Store.{add_pdu_free}
use remotecopy.Server.State.{System, Sender}
use remotecopy.Server.Send.{send_data_packet, send_eof}
use remotecopy.Server.Invariant.{IsSending, Transmission, data_packet, All-Transmission-mono}
use remotecopy.Server.Serving.{IsServing, eof_packet}

pub some-inj : {x y : List ℕ} → some x ≡ some y → x ≡ y
some-inj e = cc

-- Another slot than that of the current number.
kept :
    (w : WindowArray) (p : Packet) (n : ℕ)
    → w.lower ≤ w.current
    → w.current < w.lower + w.window_size
    → w.lower ≤ n
    → n < w.lower + w.window_size
    → w.current < n ⊎ n < w.current
    → stored (put_slot w w.current (some p)) n ≡ stored w n
kept w p n l room k u ne = stored-put_ne w w.lower w.current n (some p) l room k u (λ z. apart ne z)
  where
    apart : w.current < n ⊎ n < w.current → w.current ≡ n → ⊥
    apart (inl h) z = omega arith
    apart (inr h) z = omega arith

module _ (sys : System) (chunks : List (List ℕ)) where
  -- The sender after a chunk has been sent.
  abbrev pub after_chunk : List ℕ → Sender → Sender
  after_chunk c s = record {
    window =
        increment_current
          (put_slot s.window s.window.current (some (data_packet sys.in_cksum s.window.current c)));
    offset = s.offset + length c;
    sent = create_pdu sys.in_cksum s.window.current data_packet_flag c ∷ s.sent;
  }

  held_here :
      (w : WindowArray) (c : List ℕ)
      → IsSending sys.in_cksum chunks none w
      → get_elem? chunks w.current ≡ some c
      → (n : ℕ) (d : List ℕ) → w.current ≡ n
      → get_elem? chunks n ≡ some d
      → stored (put_slot w w.current (some (data_packet sys.in_cksum w.current c))) n
        ≡ some (some (data_packet sys.in_cksum n d))
  held_here w c v e n d z q =
      subst
        (λ m.
          stored (put_slot w w.current (some (data_packet sys.in_cksum w.current c))) m
          ≡ some (some (data_packet sys.in_cksum m d)))
        z
        (stored-put_self w w.current (some (data_packet sys.in_cksum w.current c)) v.window
          ∙ ap (λ (x : List ℕ). some (some (data_packet sys.in_cksum w.current x))) same)
    where
      same : c ≡ d
      same = some-inj (sym e ∙ subst (λ m. get_elem? chunks m ≡ some d) (sym z) q)

  after_chunk-IsSending :
      (s : Sender) (c : List ℕ)
      → IsSending sys.in_cksum chunks none s.window
      → s.window.current < s.window.lower + s.window.window_size
      → get_elem? chunks s.window.current ≡ some c
      → IsSending sys.in_cksum chunks none (after_chunk c s).window
  after_chunk-IsSending s c v room e = record {
    window = record {
      positive = v.window.positive;
      small = v.window.small;
      slots = (put_slot-IsWindow w w.current (some new) v.window).slots;
    };
    upper = v.upper;
    lower = omega (arith, v.lower, next);
    reach = omega (arith, next);
    read = omega (arith, next, below);
    small = v.small;
    held = held;
    next = λ u. free (inc32 w.current) (omega (arith, next)) u;
    free = λ n l u. free n (omega (arith, next)) u;
    ends = inl refl;
  }
    where
      w : WindowArray
      w = s.window

      new : Packet
      new = data_packet sys.in_cksum w.current c

      below : w.current < length chunks
      below = get_elem?-some_lt chunks w.current c e

      next : inc32 w.current ≡ suc w.current
      next = omega (arith, below, v.small)

      free :
          (n : ℕ)
          → w.current < n
          → n < w.lower + w.window_size
          → stored (put_slot w w.current (some new)) n ≡ some none
      free n l u = kept w new n v.lower room (omega (arith, v.lower)) u (inl l) ∙ v.free n l u

      held :
          (n : ℕ) (d : List ℕ)
          → w.lower ≤ n
          → n < inc32 w.current
          → get_elem? chunks n ≡ some d
          → stored (put_slot w w.current (some new)) n ≡ some (some (data_packet sys.in_cksum n d))
      held n d l u q = elim (dec_lt n w.current) [
        | yes p ↦ kept w new n v.lower room l (omega (arith, room)) (inr p) ∙ v.held n d l p q
        | no p ↦ held_here w c v e n d (omega (arith, next)) q
      ]

  -- send_data_packet with the next chunk of the file, while the window is open and the chunk is at
  -- most 1400 bytes, succeeds: the packet is sent and stored under the current number, which moves
  -- up by one, and the sender's invariant is kept.
  pub send_data_packet_lem :
      (s : Sender) (c : List ℕ)
      → IsServing sys chunks none s
      → s.window.current < s.window.lower + s.window.window_size
      → get_elem? chunks s.window.current ≡ some c
      → length c ≤ 1400
      → (send_data_packet sys c (record s { offset = s.offset + length c }) ≡ ok (after_chunk c s))
        × IsServing sys chunks none (after_chunk c s)
  unfolding send_data_packet
  send_data_packet_lem s c v room e short = (
    rw (
        add_pdu_free s.window s.window.current v.window.window
          (omega (arith, v.window.read, v.window.small))
          (create_pdu sys.in_cksum s.window.current data_packet_flag c)
          (omega (arith, length-create_pdu sys.in_cksum s.window.current data_packet_flag c))
          (v.window.next room)),
    record {
      window = after_chunk-IsSending s c v.window room e;
      offset = rw v.offset (
          sym (length-append (concat (take s.window.current chunks)) c)
          ∙ ap length (sym (concat-take-suc chunks s.window.current c e))
          ∙ ap (λ n. length (concat (take n chunks))) (sym next));
      sent = (
        Transmission.chunk s.window.current data_packet_flag c (omega (arith, next))
            (λ z. omega arith) e refl,
        All-Transmission-mono sys.in_cksum chunks (s.window.lower + s.window.window_size)
            (s.window.lower + s.window.window_size) s.window.lower s.window.lower s.window.current
            (inc32 s.window.current) (omega arith) (omega arith) (omega (arith, next))
            (omega (arith, next, get_elem?-some_lt chunks s.window.current c e)) s.sent v.sent,
      );
    },
  )
    where
      next : inc32 s.window.current ≡ suc s.window.current
      next = omega (arith, v.window.small, get_elem?-some_lt chunks s.window.current c e)

  -- The sender after the end of file has been sent.
  abbrev pub after_eof : Sender → Sender
  after_eof s = record s {
    window = put_slot s.window s.window.current (some (eof_packet sys s.window.current));
    sent = create_pdu sys.in_cksum s.window.current eof_flag (sys.stack_byte ∷ []) ∷ s.sent;
  }

  after_eof-IsSending :
      (w : WindowArray)
      → IsSending sys.in_cksum chunks none w
      → w.current < w.lower + w.window_size
      → IsSending sys.in_cksum chunks
          (some (eof_packet sys w.current))
          (put_slot w w.current (some (eof_packet sys w.current)))
  after_eof-IsSending w v room = record {
    window = put_slot-IsWindow w w.current (some (eof_packet sys w.current)) v.window;
    upper = v.upper;
    lower = v.lower;
    reach = v.reach;
    read = v.read;
    small = v.small;
    held = λ n c l u e.
        kept w (eof_packet sys w.current) n v.lower room l (omega (arith, room)) (inr u)
        ∙ v.held n c l u e;
    next = λ u. stored-put_self w w.current (some (eof_packet sys w.current)) v.window;
    free = λ n l u.
        kept w (eof_packet sys w.current) n v.lower room (omega (arith, v.lower)) u (inl l)
        ∙ v.free n l u;
    ends = inr room;
  }

  -- send_eof behind the last chunk, while the window is open, succeeds: the end of file is sent and
  -- stored under the current number, which stays, and the sender's invariant is kept.
  pub send_eof_lem :
      (s : Sender)
      → IsServing sys chunks none s
      → s.window.current < s.window.lower + s.window.window_size
      → s.window.current ≡ length chunks
      → (send_eof sys s ≡ ok (after_eof s))
        × IsServing sys chunks (some (eof_packet sys s.window.current)) (after_eof s)
  unfolding send_eof
  send_eof_lem s v room e = (
    rw (
        add_pdu_free s.window s.window.current v.window.window
          (omega (arith, v.window.read, v.window.small))
          (create_pdu sys.in_cksum s.window.current eof_flag (sys.stack_byte ∷ []))
          (omega
            (arith, length-create_pdu sys.in_cksum s.window.current eof_flag (sys.stack_byte ∷ [])))
          (v.window.next room)),
    record {
      window = after_eof-IsSending s.window v.window room;
      offset = v.offset;
      sent = (
        Transmission.last sys.stack_byte e (omega (arith, room, e))
            (ap (λ n. create_pdu sys.in_cksum n eof_flag (sys.stack_byte ∷ [])) e),
        v.sent,
      );
    },
  )
