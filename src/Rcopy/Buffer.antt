-- ===== src/Rcopy/Buffer.antt =====
-- What one turn of buffering (project_3/rcopy.c) does to a receiver that a genuine server sends to.
use remotecopy.Base.{
  ℕ, zero, suc, ◌+◌, ◌-◌, ◌≤◌, ◌<◌, ◌≡◌, refl, sym, ap, ◌∙◌, subst, inl, inr, Option, none, some,
  List, get_elem?, length, inc32, arith, ==-ne, ==_iff, ltb, lt→ltb, le→ltb, Bool-cases,
}
use native.Mathlib.Decide.{ℕ_discrete, dec_lt}
use remotecopy.Base.Control.{Turn, TurnIs, TurnIs-weaken}
use remotecopy.Protocol.{eof_flag}
use remotecopy.Pdu.{Pdu}
use remotecopy.Window.{packet_pdu_size}
use remotecopy.Window.Slot.{stored}
use remotecopy.Rcopy.State.{State, System, Receiver}
use remotecopy.Rcopy.Send.{srej_rounds, send_srejs, send_srej, send_rr}
use remotecopy.Rcopy.Transfer.{
  room, ask_between, buffering_ahead, buffering_expected, buffering_response, max, with_highest,
  with_window,
}
use remotecopy.Rcopy.Genuine.{Genuine}
use remotecopy.Rcopy.Invariant.{advance-IsReceiving}
use remotecopy.Rcopy.Storing.{
  Stores, store-IsReceiving, send_srejs-IsReceiving, send_rr-IsReceiving, window-send_srejs,
}
use remotecopy.Rcopy.Turns.{
  IsTimely, Timely, InState, Never, Ok, seq-le, on_time, stop_partial, accept-write-Is,
}

max_right : (a b : ℕ) → b ≤ max a b
max_right a b = ground arith

max_le : (a b m : ℕ) → a ≤ m → b ≤ m → max a b ≤ m
max_le a b m h k = ground arith

max_lt : (a b m : ℕ) → a < m → b < m → max a b < m
max_lt a b m h k = ground arith

module _ (sys : System) where
  srej_rounds-with_highest :
      (n i h : ℕ) (r : Receiver)
      → srej_rounds sys n i (with_highest h r) ≡ with_highest h (srej_rounds sys n i r)
  unfolding srej_rounds send_srej
  srej_rounds-with_highest zero i h r = refl
  srej_rounds-with_highest (suc n) i h r =
      srej_rounds-with_highest n (inc32 i) h (send_srej sys i r)

  send_srejs-with_highest :
      (from until h : ℕ) (r : Receiver)
      → send_srejs sys from until (with_highest h r) ≡ with_highest h (send_srejs sys from until r)
  unfolding send_srejs
  send_srejs-with_highest from until h r = srej_rounds-with_highest (until - from) from h r

  window-ask_between :
      (buffer_size seq : ℕ) (r : Receiver) → (ask_between sys buffer_size seq r).window ≡ r.window
  unfolding ask_between
  window-ask_between buffer_size seq r =
      ground (arith, window-send_srejs sys (inc32 r.window.highest) seq r)

module _ (sys : System) (buffer_size : ℕ) (chunks : List (List ℕ)) (limit wide begun : ℕ) where
  ask_between-Ok :
      (seq h : ℕ) (r : Receiver)
      → Ok sys buffer_size chunks limit wide begun (with_highest h r)
      → seq ≤ limit
      → limit ≤ length chunks
      → Ok sys buffer_size chunks limit wide begun
          (with_highest h (ask_between sys buffer_size seq r))
  unfolding ask_between
  ask_between-Ok seq h r v known top = elim (Bool-cases (ltb r.window.highest seq)) [
    | inl e ↦ rw e (
        subst (Ok sys buffer_size chunks limit wide begun)
          (send_srejs-with_highest sys (inc32 r.window.highest) seq h r)
          (send_srejs-IsReceiving sys (room sys buffer_size) chunks limit wide begun
            (inc32 r.window.highest) seq (with_highest h r) v known top))
    | inr e ↦ rw e v
  ]

  -- The loop of buffering, with its current number and the size of its window.
  abbrev pub Buffering : ℕ → ℕ → Receiver → Type 0
  Buffering c size r =
      InState sys buffer_size chunks limit wide begun State.buffering r
      × (r.window.current ≡ c)
      × (r.window.window_size ≡ size)

  module _ (fits : room sys buffer_size ≤ packet_pdu_size) (top : limit ≤ length chunks)
      (c size : ℕ) where
    -- What buffering is left for: the chunk of number `c` has been written, or the loop has ended.
    abbrev pub BufferLeft : State → Receiver → Type 0
    BufferLeft State.flush r =
        Ok sys buffer_size chunks limit wide begun r × (r.window.current ≡ suc c)
    BufferLeft State.done r = InState sys buffer_size chunks limit wide begun State.done r
    BufferLeft _ r = ⊥

    BufferLeft-InState :
        (st : State) (r : Receiver)
        → BufferLeft st r
        → InState sys buffer_size chunks limit wide begun st r
    BufferLeft-InState State.flush r h = h.0
    BufferLeft-InState State.done r h = h
    BufferLeft-InState State.in_order r h = absurd h
    BufferLeft-InState State.buffering r h = absurd h
    BufferLeft-InState State.start r h = absurd h
    BufferLeft-InState State.filename r h = absurd h
    BufferLeft-InState State.file_okay r h = absurd h

    abbrev Turns : Turn Receiver State → Type 0
    Turns = TurnIs (Buffering c size) BufferLeft (Never sys buffer_size chunks limit wide begun)

    buffering_ahead-Is :
        (buffer : List ℕ) (p : Pdu) (r : Receiver)
        → Buffering c size r
        → IsTimely chunks limit (room sys buffer_size) c size buffer p
        → r.window.current < p.sequence_number
        → Turns (buffering_ahead sys buffer_size buffer p.sequence_number r)
    unfolding buffering_ahead
    buffering_ahead-Is buffer p r ((v, free), at, sized) t lo = rw stores.1 (
      (kept, free'),
      ap (λ w. w.current) same ∙ stores.3 ∙ at,
      ap (λ w. w.window_size) same ∙ stores.6 ∙ sized,
    )
      where
        last : p.sequence_number ≤ length chunks
        last = seq-le sys buffer_size chunks limit wide begun p t.genuine

        stores :
            Stores sys (room sys buffer_size) chunks limit wide begun r buffer p.sequence_number
        stores =
            store-IsReceiving sys (room sys buffer_size) chunks limit wide begun r buffer p v fits
              t.short t.parsed t.genuine lo (omega (arith, t.within)) last

        r' : Receiver
        r' = ask_between sys buffer_size p.sequence_number (with_window r stores.0)

        same : r'.window ≡ stores.0
        same = window-ask_between sys buffer_size p.sequence_number (with_window r stores.0)

        raised : ℕ
        raised = max stores.0.highest p.sequence_number

        kept :
            Ok sys buffer_size chunks limit wide begun
              (with_highest (max r'.window.highest p.sequence_number) r')
        kept =
            subst
              (λ w.
                Ok sys buffer_size chunks limit wide begun
                  (with_highest (max w.highest p.sequence_number) r'))
              (sym same)
              (ask_between-Ok p.sequence_number raised (with_window r stores.0)
                (stores.5 raised (ground (arith, stores.4))
                  (max_right stores.0.highest p.sequence_number)
                  (max_le stores.0.highest p.sequence_number (length chunks)
                    (omega (arith, stores.4, v.highest)) last)
                  (max_lt stores.0.highest p.sequence_number
                    (r.window.current + r.window.window_size) (omega (arith, stores.4, v.near))
                    (omega (arith, t.within))))
                t.known top)

        free' : stored r'.window r'.window.current ≡ some none
        free' =
            subst (λ w. stored w w.current ≡ some none) (sym same)
              (subst (λ n. stored stores.0 n ≡ some none) (sym stores.3) (stores.2 ∙ free))

    buffering_expected-Is :
        (p : Pdu) (r : Receiver)
        → Buffering c size r
        → Genuine chunks limit p
        → p.sequence_number ≡ r.window.current
        → Turns (buffering_expected sys buffer_size p r)
    unfolding buffering_expected send_rr
    buffering_expected-Is p r ((v, free), at, sized) (inl (flag, e, pos, lt)) here =
        rw (==-ne p.recv_flag eof_flag flag, ==-ne (length p.payload) 0 (λ q. omega arith))
          (accept-write-Is sys buffer_size chunks limit wide begun (Buffering c size) BufferLeft
            State.flush (λ x. x) p.payload r
            (
              advance-IsReceiving sys (room sys buffer_size) chunks limit wide begun r p.payload v
                  chunk free (omega (arith, here)),
              omega (arith, at, v.current, v.small),
            )
            (λ k. stop_partial sys buffer_size chunks limit wide begun r p.payload k v chunk))
      where
        chunk : get_elem? chunks r.window.current ≡ some p.payload
        chunk = subst (λ n. get_elem? chunks n ≡ some p.payload) here e
    buffering_expected-Is p r b (inr (flag, e, _)) here =
        rw ((==_iff p.recv_flag eof_flag).1 flag) b

    send_current_rr-Is :
        (r : Receiver) → Buffering c size r → Buffering c size (send_rr sys r.window.current r)
    unfolding send_rr
    send_current_rr-Is r ((v, free), at, sized) = (
      (
        send_rr-IsReceiving sys (room sys buffer_size) chunks limit wide begun r r.window.current v
            (omega arith),
        free,
      ),
      at,
      sized,
    )

    -- One turn of buffering after a datagram has no fault: it goes on in the same window with the
    -- current packet still missing, or it is left for FLUSH, the window one packet further and the
    -- file up to there written, or for DONE with a prefix of the file written. It is left for no
    -- other state. The conditions are those of in_order_response-Is, for a receiver whose current
    -- packet is missing, with the window's current number `c` and its size fixed.
    pub buffering_response-Is :
        (buffer : List ℕ) (o : Option Pdu) (r : Receiver)
        → Buffering c size r
        → Timely chunks limit (room sys buffer_size) c size buffer o
        → Turns (buffering_response sys buffer_size buffer o r)
    unfolding buffering_response
    buffering_response-Is buffer none r b t = b
    buffering_response-Is buffer (some p) r b t = elim (dec_lt p.sequence_number c) [
      | yes late ↦
          rw
            (
              le→ltb r.window.current p.sequence_number (omega (arith, b.1)),
              ==-ne p.sequence_number r.window.current (λ q. omega (arith, b.1)),
            )
            (send_current_rr-Is r b)
      | no here ↦ now (on_time sys buffer_size chunks limit wide begun p c size buffer t here)
    ]
      where
        now :
            IsTimely chunks limit (room sys buffer_size) c size buffer p
            → Turns (buffering_response sys buffer_size buffer (some p) r)
        now k = elim (dec_lt r.window.current p.sequence_number) [
          | yes beyond ↦
              rw (lt→ltb r.window.current p.sequence_number beyond)
                (buffering_ahead-Is buffer p r b k beyond)
          | no before ↦
              rw (le→ltb r.window.current p.sequence_number (omega arith))
                (elim (ℕ_discrete p.sequence_number r.window.current) [
                  | yes q ↦
                      rw ((==_iff p.sequence_number r.window.current).1 q)
                        (buffering_expected-Is p r b k.genuine q)
                  | no ne ↦
                      rw (==-ne p.sequence_number r.window.current ne) (send_current_rr-Is r b)
                ])
        ]

    pub buffering_response-InState :
        (buffer : List ℕ) (o : Option Pdu) (r : Receiver)
        → Buffering c size r
        → Timely chunks limit (room sys buffer_size) c size buffer o
        → TurnIs
            (Buffering c size)
            (InState sys buffer_size chunks limit wide begun)
            (Never sys buffer_size chunks limit wide begun)
            (buffering_response sys buffer_size buffer o r)
    buffering_response-InState buffer o r b t =
        TurnIs-weaken (Buffering c size) BufferLeft
          (InState sys buffer_size chunks limit wide begun)
          (Never sys buffer_size chunks limit wide begun)
          (buffering_response sys buffer_size buffer o r) BufferLeft-InState
          (buffering_response-Is buffer o r b t)
