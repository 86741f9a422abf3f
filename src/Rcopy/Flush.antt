-- ===== src/Rcopy/Flush.antt =====
-- flush (project_3/rcopy.c): it ends, and it leaves the window as IN_ORDER or BUFFERING expects.
use remotecopy.Base.{
  ℕ, zero, suc, ◌+◌, ◌≤◌, ◌<◌, ◌≡◌, refl, sym, ◌∙◌, subst, inl, inr, Bool, true, false, none, some,
  List, ◌++◌, get_elem?, get_or, drop, length, arith, ==-ne, ==_iff, ltb, ltb→lt, ltb→le,
  if◌then◌else◌, slt, slt_pos,
}
use remotecopy.Base.Control.{Turn, again, leave, crash, TurnIs, TurnIs-weaken}
use remotecopy.Protocol.{eof_flag}
use remotecopy.Pdu.{Pdu}
use remotecopy.Window.{Packet}
use remotecopy.Window.Slot.{stored, put_slot, stored-put_self}
use remotecopy.Window.Store.{
  remove_pdu_taken, get_pdu_taken, check_pdu_valid_taken, check_pdu_valid_free,
}
use remotecopy.Rcopy.State.{State, System, Receiver}
use remotecopy.Rcopy.Send.{send_rr, advance, write}
use remotecopy.Rcopy.Transfer.{
  room, flush_next, flush_pdu, flush_turn, flush_rounds, flush_again, flush, with_window,
}
use remotecopy.Rcopy.Genuine.{Genuine, fields_places}
use remotecopy.Rcopy.Write.{with_file, write_cases}
use remotecopy.Rcopy.Invariant.{
  IsReceiving, IsEmpty, IsHeld, Held, advance-IsReceiving, remove-IsReceiving,
}
use remotecopy.Rcopy.Turns.{
  InState, Settled, Settled-InState, Never, Nowhere, Ok, stop_partial, stop_acknowledged,
}

module _ (sys : System) (buffer_size : ℕ) (chunks : List (List ℕ)) (limit wide begun : ℕ) where
  -- A round of flush that goes on has moved the window up by one packet, and there is one left.
  pub record IsNext (r r' : Receiver) : Type 0 where
    pub kept : Ok sys buffer_size chunks limit wide begun r'
    pub current : r'.window.current ≡ suc r.window.current
    pub highest : r'.window.highest ≡ r.window.highest
    pub more : r'.window.current ≤ r'.window.highest

  abbrev Rounds : Receiver → Turn Receiver State → Type 0
  Rounds r =
      TurnIs (IsNext r) (Settled sys buffer_size chunks limit wide begun)
        (Never sys buffer_size chunks limit wide begun)

  -- What is left once the window is past the highest packet.
  past_highest :
      (r : Receiver)
      → Ok sys buffer_size chunks limit wide begun r
      → r.window.highest < r.window.current
      → IsEmpty r.window
  past_highest r v h n l u = past (v.held n l u)
    where
      past : Held (room sys buffer_size) chunks limit r.window n → stored r.window n ≡ some none
      past (inl e) = e
      past (inr (p, e, k, _)) = absurd (omega arith)

  -- The test at the end of a round.
  round_end :
      (r r' : Receiver)
      → Ok sys buffer_size chunks limit wide begun r'
      → r'.window.current ≡ suc r.window.current
      → r'.window.highest ≡ r.window.highest
      → (b : Bool) → ltb r'.window.highest r'.window.current ≡ b
      → Rounds r (if b then leave State.in_order r' else again r')
  round_end r r' kept c h true e = (kept, past_highest r' kept (ltb→lt _ _ e))
  round_end r r' kept c h false e = record {
    kept = kept;
    current = c;
    highest = h;
    more = ltb→le _ _ e;
  }

  flush_next-Is :
      (r : Receiver) (p : Packet) (c : List ℕ)
      → Ok sys buffer_size chunks limit wide begun r
      → get_elem? chunks r.window.current ≡ some c
      → stored r.window r.window.current ≡ some (some p)
      → r.window.current < limit
      → Rounds r (flush_next sys buffer_size (with_file r (r.file ++ c), true))
  unfolding flush_next send_rr
  flush_next-Is r p c v here held lt =
      rw
        (remove_pdu_taken r.window r.window.current v.window (omega (arith, v.current, v.small)) p
          held)
        (round_end r r' kept (omega (arith, v.current, v.small)) refl
          (slt r'.window.highest r'.window.current)
          (sym (
            slt_pos r'.window.highest r'.window.current (omega (arith, v.highest, v.small))
              (omega (arith, kept.current, v.small)))))
    where
      removed : Receiver
      removed = record r { window = put_slot r.window r.window.current none }

      r' : Receiver
      r' =
          let r'' = advance (with_window (with_file r (r.file ++ c)) removed.window) in
          send_rr sys r''.window.current r''

      kept : Ok sys buffer_size chunks limit wide begun r'
      kept =
          advance-IsReceiving sys (room sys buffer_size) chunks limit wide begun removed c
            (remove-IsReceiving sys (room sys buffer_size) chunks limit wide begun r v) here
            (stored-put_self r.window r.window.current none v.window) lt

  flush_write-Is :
      (r : Receiver) (p : Packet) (c : List ℕ)
      → Ok sys buffer_size chunks limit wide begun r
      → get_elem? chunks r.window.current ≡ some c
      → stored r.window r.window.current ≡ some (some p)
      → r.window.current < limit
      → Rounds r (flush_next sys buffer_size (write sys c r))
  unfolding flush_next
  flush_write-Is r p c v here held lt = elim (write_cases sys c r) [
    | inl e ↦
        subst (λ t. Rounds r (flush_next sys buffer_size t)) (sym e)
          (flush_next-Is r p c v here held lt)
    | inr (k, e) ↦
        subst (λ t. Rounds r (flush_next sys buffer_size t)) (sym e)
          (stop_partial sys buffer_size chunks limit wide begun r c k v here)
  ]

  flush_pdu-Is :
      (r : Receiver) (p : Packet)
      → Ok sys buffer_size chunks limit wide begun r
      → stored r.window r.window.current ≡ some (some p)
      → IsHeld (room sys buffer_size) chunks limit r.window.current p
      → Rounds r (flush_pdu sys buffer_size p.pdu r)
  unfolding flush_pdu
  flush_pdu-Is r p v held k = by_kind k.genuine
    where
      q : Pdu
      q = k.parts

      places :
          (get_or p.pdu 6 0 ≡ q.recv_flag)
          × (drop 7 p.pdu ≡ q.payload)
          × (length p.pdu ≡ 7 + length q.payload)
      places = fields_places p.pdu q k.parsed

      by_kind : Genuine chunks limit q → Rounds r (flush_pdu sys buffer_size p.pdu r)
      by_kind (inl (flag, e, pos, lt)) =
          rw
            (
              ==-ne (get_or p.pdu 6 0) eof_flag (λ z. flag (sym places.0 ∙ z)),
              ==-ne (length p.pdu) 0 (λ z. omega (arith, places.2)),
              places.1,
            )
            (flush_write-Is r p q.payload v
              (subst (λ n. get_elem? chunks n ≡ some q.payload) k.number e) held
              (omega (arith, k.number)))
      by_kind (inr (flag, e, _)) =
          rw ((==_iff (get_or p.pdu 6 0) eof_flag).1 (places.0 ∙ flag)) (
            stop_acknowledged sys buffer_size chunks limit wide begun r v (omega (arith, k.number)))

  flush_turn-Is :
      (r : Receiver)
      → Ok sys buffer_size chunks limit wide begun r
      → Rounds r (flush_turn sys buffer_size r)
  unfolding flush_turn
  flush_turn-Is r v =
      by_slot (v.held r.window.current (omega arith) (omega (arith, v.window.positive)))
    where
      small : r.window.current < 2147483648
      small = omega (arith, v.current, v.small)

      by_slot :
          Held (room sys buffer_size) chunks limit r.window r.window.current
          → Rounds r (flush_turn sys buffer_size r)
      by_slot (inl e) = rw (check_pdu_valid_free r.window r.window.current v.window small e) (v, e)
      by_slot (inr (p, e, l, k)) =
          rw
            (
              check_pdu_valid_taken r.window r.window.current v.window small p e,
              get_pdu_taken r.window r.window.current v.window small (room sys buffer_size) p e
                  (omega (arith, k.size, k.fits)),
            )
            (flush_pdu-Is r p v e k)

  again-Is :
      (n : ℕ) (r : Receiver) (t : Turn Receiver State)
      → Rounds r t
      → ((r' : Receiver)
          → IsNext r r'
          → TurnIs
              (Nowhere sys buffer_size chunks limit wide begun)
              (Settled sys buffer_size chunks limit wide begun)
              (Never sys buffer_size chunks limit wide begun)
              (flush_rounds sys buffer_size n r'))
      → TurnIs
          (Nowhere sys buffer_size chunks limit wide begun)
          (Settled sys buffer_size chunks limit wide begun)
          (Never sys buffer_size chunks limit wide begun)
          (flush_again sys buffer_size (flush_rounds sys buffer_size n) t)
  again-Is n r (again r') h k = k r' h
  again-Is n r (leave st r') h k = h
  again-Is n r (crash f) h k = h

  flush_rounds-Is :
      (n : ℕ) (r : Receiver)
      → Ok sys buffer_size chunks limit wide begun r
      → 0 < n
      → r.window.highest < r.window.current + n
      → TurnIs
          (Nowhere sys buffer_size chunks limit wide begun)
          (Settled sys buffer_size chunks limit wide begun)
          (Never sys buffer_size chunks limit wide begun)
          (flush_rounds sys buffer_size n r)
  unfolding flush_rounds
  flush_rounds-Is zero r v pos h = absurd (omega arith)
  flush_rounds-Is (suc n) r v pos h =
      again-Is n r (flush_turn sys buffer_size r) (flush_turn-Is r v) (λ r' k.
        flush_rounds-Is n r' k.kept (omega (arith, k.current, k.highest, k.more))
          (omega (arith, k.current, k.highest)))

  -- From every receiver that satisfies the invariant, flush ends within one round more than the
  -- window has slots, without a fault: for IN_ORDER with an empty window, for BUFFERING with the
  -- current packet missing, or for DONE with a prefix of the file written. It is left for no other
  -- state.
  pub flush-Is :
      (r : Receiver)
      → IsReceiving sys (room sys buffer_size) chunks limit wide begun r
      → TurnIs
          (Nowhere sys buffer_size chunks limit wide begun)
          (Settled sys buffer_size chunks limit wide begun)
          (Never sys buffer_size chunks limit wide begun)
          (flush sys buffer_size r)
  unfolding flush
  flush-Is r v =
      flush_rounds-Is (suc r.window.window_size) r v (omega arith) (omega (arith, v.near))

  pub flush-InState :
      (r : Receiver)
      → IsReceiving sys (room sys buffer_size) chunks limit wide begun r
      → TurnIs
          (Nowhere sys buffer_size chunks limit wide begun)
          (InState sys buffer_size chunks limit wide begun)
          (Never sys buffer_size chunks limit wide begun)
          (flush sys buffer_size r)
  flush-InState r v =
      TurnIs-weaken (Nowhere sys buffer_size chunks limit wide begun)
        (Settled sys buffer_size chunks limit wide begun)
        (InState sys buffer_size chunks limit wide begun)
        (Never sys buffer_size chunks limit wide begun) (flush sys buffer_size r)
        (Settled-InState sys buffer_size chunks limit wide begun) (flush-Is r v)
