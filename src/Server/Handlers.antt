-- ===== src/Server/Handlers.antt =====
-- One turn of each loop of project_3/server.c keeps the sender's invariant, and says in which state
-- the loop is left.
use native.Mathlib.Decide.{dec_lt}
use remotecopy.Base.{
  ℕ, ◌+◌, ◌≤◌, ◌<◌, ◌≡◌, sym, ap, ◌∙◌, subst, ◌⊎◌, inl, inr, false, Option, none, some, List, [],
  ◌∷◌, take, get_elem?, get_elem?-lt, length, arith, ltb, lt→ltb, le→ltb, ==-ne, ==_iff, slt_pos,
  is_neg,
}
use remotecopy.Base.Chunks.{concat}
use remotecopy.Base.Control.{Turn, again, TurnIs, TurnIs-weaken, Fault}
use remotecopy.Protocol.{rr_flag, srej_flag, resent_srej_data_packet_flag}
use remotecopy.Pdu.{Pdu}
use remotecopy.Window.{Packet, check_window_open}
use remotecopy.Server.State.{State, System, Sender}
use remotecopy.Server.Transfer.{use_read, open_turn, open_response}
use remotecopy.Server.Serving.{IsServing}
use remotecopy.Server.Sending.{send_data_packet_lem}
use remotecopy.Server.Turns.{IsReading, Heard, MayHear, IsWithin, srej-Is, rr-Is}

module _ (sys : System) (buffer_size : ℕ) (chunks : List (List ℕ))
    (reading : IsReading sys buffer_size chunks) (base bound width : ℕ) (C : Fault → Type 0) where
  -- The condition of each state. `tail` is what the slot of the current number holds.
  abbrev pub InState : State → Sender → Type 0
  InState State.window_open s = IsWithin sys chunks base bound width none s
  InState State.window_closed s = IsWithin sys chunks base bound width none s
  InState State.end_of_file s =
      IsWithin sys chunks base bound width none s
      × (s.window.current < s.window.lower + s.window.window_size)
      × (s.window.current ≡ length chunks)
  InState State.done s = (tail : Option Packet) × IsWithin sys chunks base bound width tail s
  InState _ s = ⊥

  -- What window_open is left for before its poll: WINDOW_CLOSED only with the window closed.
  abbrev pub OpenLeft : State → Sender → Type 0
  OpenLeft State.window_closed s =
      InState State.window_closed s × (s.window.lower + s.window.window_size ≤ s.window.current)
  OpenLeft State.end_of_file s = InState State.end_of_file s
  OpenLeft State.done s = InState State.done s
  OpenLeft _ s = ⊥

  OpenLeft-InState : (st : State) (s : Sender) → OpenLeft st s → InState st s
  OpenLeft-InState State.window_closed s h = h.0
  OpenLeft-InState State.end_of_file s h = h
  OpenLeft-InState State.done s h = h
  OpenLeft-InState State.window_open s h = absurd h
  OpenLeft-InState State.start s h = absurd h
  OpenLeft-InState State.filename s h = absurd h

  abbrev Entered : Turn Sender State → Type 0
  Entered = TurnIs (InState State.window_open) OpenLeft C

  abbrev pub Open : Turn Sender State → Type 0
  Open = TurnIs (InState State.window_open) InState C

  use_chunk-Is :
      (s : Sender) (c : List ℕ)
      → IsWithin sys chunks base bound width none s
      → s.window.current < s.window.lower + s.window.window_size
      → get_elem? chunks s.window.current ≡ some c
      → 0 < length c
      → length c ≤ 1400
      → Entered (use_read sys buffer_size (some c) s)
  unfolding use_read
  use_chunk-Is s [] v room e pos short = absurd (omega arith)
  use_chunk-Is s (b ∷ bytes) v room e pos short =
      let (q, serving) = send_data_packet_lem sys chunks s (b ∷ bytes) v.serving room e short in
      rw q (record {
        serving = serving;
        from = omega (arith, v.from, v.serving.window.read, v.serving.window.small);
        upto = v.upto;
        wide = v.wide;
      })

  use_read-Is :
      (s : Sender)
      → buffer_size ≤ 1400
      → IsWithin sys chunks base bound width none s
      → s.window.current < s.window.lower + s.window.window_size
      → Entered (use_read sys buffer_size (sys.read_input s.offset buffer_size) s)
  unfolding use_read
  use_read-Is s fits v room = elim (dec_lt s.window.current (length chunks)) [
    | yes p ↦
        let (c, e) = get_elem?-lt chunks s.window.current p in
        by_read c e (reading.reads s.window.current c e)
    | no p ↦ by_end (omega (arith, v.serving.window.read)) reading.ends
  ]
    where
      Reads : Option (List ℕ) → ℕ → Type 0
      Reads o n = sys.read_input (length (concat (take n chunks))) buffer_size ≡ o

      here :
          (o : Option (List ℕ)) → Reads o s.window.current → sys.read_input s.offset buffer_size ≡ o
      here o q = subst (λ n. sys.read_input n buffer_size ≡ o) (sym v.serving.offset) q

      by_read :
          (c : List ℕ)
          → get_elem? chunks s.window.current ≡ some c
          → Reads (some c) s.window.current ⊎ Reads none s.window.current
          → Entered (use_read sys buffer_size (sys.read_input s.offset buffer_size) s)
      by_read c e (inl q) =
          subst (λ o. Entered (use_read sys buffer_size o s)) (sym (here (some c) q))
            (use_chunk-Is s c v room e (reading.filled s.window.current c e)
              (omega (arith, reading.sized s.window.current c e)))
      by_read c e (inr q) =
          subst (λ o. Entered (use_read sys buffer_size o s)) (sym (here none q)) (none, v)

      by_end :
          s.window.current ≡ length chunks
          → Reads (some []) (length chunks) ⊎ Reads none (length chunks)
          → Entered (use_read sys buffer_size (sys.read_input s.offset buffer_size) s)
      by_end e (inl q) =
          subst (λ o. Entered (use_read sys buffer_size o s))
            (sym (here (some []) (subst (Reads (some [])) (sym e) q))) (v, room, e)
      by_end e (inr q) =
          subst (λ o. Entered (use_read sys buffer_size o s))
            (sym (here none (subst (Reads none) (sym e) q))) (none, v)

  -- Whether the window is open, in terms of its edges.
  pub open_iff :
      (tail : Option Packet) (s : Sender)
      → IsServing sys chunks tail s
      → check_window_open s.window ≡ ltb s.window.current (s.window.lower + s.window.window_size)
  open_iff tail s v =
      slt_pos s.window.current s.window.upper (omega (arith, v.window.read, v.window.small))
        (omega (arith, v.window.upper, v.window.lower, v.window.read, v.window.small))
      ∙ ap (ltb s.window.current) v.window.upper

  -- The body of window_open down to its poll keeps the sender's invariant, when `read` gives the
  -- chunks of the file in order or fails, and the buffer size is at most 1400: it goes on to the
  -- poll, or it is left for WINDOW_CLOSED with the current number a window's size or more above the
  -- lower edge, for END_OF_FILE with room in the window and all chunks read, or for DONE. It is
  -- left for no other state. It has no fault but those that `C` allows.
  pub open_turn-Is :
      (s : Sender)
      → buffer_size ≤ 1400
      → InState State.window_open s
      → Entered (open_turn sys buffer_size s)
  unfolding open_turn
  open_turn-Is s fits v =
      rw (open_iff none s v.serving, big)
        (elim (dec_lt s.window.current (s.window.lower + s.window.window_size)) [
          | yes p ↦
              rw (lt→ltb s.window.current (s.window.lower + s.window.window_size) p)
                (use_read-Is s fits v p)
          | no p ↦
              rw (le→ltb s.window.current (s.window.lower + s.window.window_size) (omega arith))
                (v, omega arith)
        ])
    where
      big : is_neg buffer_size ≡ false
      big = ground arith

  pub open_turn-InState :
      (s : Sender)
      → buffer_size ≤ 1400
      → InState State.window_open s
      → Open (open_turn sys buffer_size s)
  open_turn-InState s fits v =
      TurnIs-weaken (InState State.window_open) OpenLeft InState C (open_turn sys buffer_size s)
        OpenLeft-InState (open_turn-Is s fits v)

  -- The body of window_open after its poll keeps the sender's invariant, for a corrupted datagram
  -- or one that a receiver may send: an RR that is not beyond the current packet, a SREJ below it,
  -- or something else. A SREJ below the window is allowed only if `C` allows every fault; there is
  -- no fault but those that `C` allows.
  pub open_response-Is :
      (o : Option Pdu) (s : Sender)
      → InState State.window_open s
      → MayHear C bound s o
      → Open (open_response sys buffer_size o s)
  unfolding open_response
  open_response-Is none s v h = v
  open_response-Is (some p) s v (Heard.rr n f e le lim) = rw ((==_iff p.recv_flag rr_flag).1 f) (
      rr-Is sys buffer_size chunks reading base bound width C none (InState State.window_open)
        InState s n p.payload again v e le lim (λ s' v' _. v'))
  open_response-Is (some p) s v (Heard.srej n f e lt low) =
      rw (==-ne p.recv_flag rr_flag (λ z. omega arith), (==_iff p.recv_flag srej_flag).1 f)
        (srej-Is sys buffer_size chunks reading base bound width C none (InState State.window_open)
          InState s n resent_srej_data_packet_flag p.payload again v (λ z. omega arith) e lt low
          (λ s' v' _. v'))
  open_response-Is (some p) s v (Heard.other f g) =
      rw (==-ne p.recv_flag rr_flag f, ==-ne p.recv_flag srej_flag g) (none, v)
