-- ===== src/Rcopy/Turns.antt =====
-- What one turn of in_order, buffering or flush (project_3/rcopy.c) does to a receiver that a
-- genuine server sends to.
use remotecopy.Base.{
  ℕ, ◌+◌, ◌≤◌, ◌<◌, ◌≡◌, ◌≢◌, refl, sym, ap, ◌∙◌, subst, ◌⊎◌, inl, inr, Bool, true, false, Option,
  none, some, List, ◌++◌, take, get_elem?, length, take_all, ==_iff, arith, All, ◌==◌, ==-ne, leb,
  if◌then◌else◌,
}
use native.Mathlib.Decide.{ℕ_discrete, dec_lt}
use remotecopy.Base.Chunks.{concat, Prefix, partial_prefix, concat-take_prefix, get_elem?-some_lt}
use remotecopy.Base.Control.{Fault, leave, TurnIs, TurnIs-weaken}
use remotecopy.Protocol.{eof_flag}
use remotecopy.Pdu.{Pdu, fields}
use remotecopy.Window.{packet_pdu_size}
use remotecopy.Window.Slot.{stored}
use remotecopy.Rcopy.State.{State, System, Receiver}
use remotecopy.Rcopy.Send.{send_eof_ack, send_srejs, advance, write, send_rr}
use remotecopy.Rcopy.Transfer.{
  room, accept, in_order_expected, in_order_ahead, in_order_response, with_highest, with_window,
}
use remotecopy.Rcopy.Genuine.{Genuine, Reply}
use remotecopy.Rcopy.Write.{write_cases, with_file}
use remotecopy.Rcopy.Invariant.{
  IsReceiving, IsEmpty, highest-IsReceiving, advance-IsEmpty, advance-IsReceiving,
}
use remotecopy.Rcopy.Storing.{
  store-IsReceiving, send_srejs-IsReceiving, send_rr-IsReceiving, window-send_srejs, Stores,
}

leb_lt : (a b : ℕ) → a < b → leb b a ≡ false
leb_lt a b h = ground arith

leb_ge : (a b : ℕ) → b ≤ a → leb b a ≡ true
leb_ge a b h = ground arith

lt_of_ge_ne : {a b : ℕ} → ¬ (a < b) → a ≢ b → b < a
lt_of_ge_ne h k = omega arith

-- A packet that comes at a window of `size` from `current`: genuine, not beyond the window, and
-- none that the server has not sent yet. `buffer` holds its bytes, which fit `space`.
pub record IsTimely (chunks : List (List ℕ)) (limit space current size : ℕ) (buffer : List ℕ)
    (p : Pdu) : Type 0 where
  pub genuine : Genuine chunks limit p
  pub known : p.sequence_number ≤ limit
  pub within : p.sequence_number < current + size
  pub short : length buffer ≤ space
  pub parsed : fields buffer ≡ some p

-- What comes is corrupted, or late (and then it may hold anything), or timely.
abbrev pub Timely : List (List ℕ) → ℕ → ℕ → ℕ → ℕ → List ℕ → Option Pdu → Type 0
Timely chunks limit space current size buffer none = Unit {0}
Timely chunks limit space current size buffer (some p) =
    (p.sequence_number < current) ⊎ IsTimely chunks limit space current size buffer p

-- The receiver has ended: the file holds a prefix of what was sent, and all of it if the end of file
-- has been acknowledged.
pub record IsStopped (sys : System) (chunks : List (List ℕ)) (limit begun : ℕ) (r : Receiver)
    : Type 0 where
  pub accepted : ℕ
  pub from : begun ≤ accepted
  pub reached : accepted ≤ limit
  pub whole : length chunks ≤ accepted → r.file ≡ concat chunks
  pub file : Prefix r.file (concat chunks)
  pub replies : All (Reply sys.in_cksum chunks limit accepted) r.sent

module _ (sys : System) (buffer_size : ℕ) (chunks : List (List ℕ)) (limit wide begun : ℕ) where
  -- The condition of each state.
  abbrev pub InState : State → Receiver → Type 0
  InState State.in_order r =
      IsReceiving sys (room sys buffer_size) chunks limit wide begun r × IsEmpty r.window
  InState State.buffering r =
      IsReceiving sys (room sys buffer_size) chunks limit wide begun r
      × (stored r.window r.window.current ≡ some none)
  InState State.flush r = IsReceiving sys (room sys buffer_size) chunks limit wide begun r
  InState State.done r = IsStopped sys chunks limit begun r
  InState _ r = ⊥

  -- The same where FLUSH is no way on.
  abbrev pub Settled : State → Receiver → Type 0
  Settled State.in_order r = InState State.in_order r
  Settled State.buffering r = InState State.buffering r
  Settled State.done r = InState State.done r
  Settled _ r = ⊥

  pub Settled-InState : (st : State) (r : Receiver) → Settled st r → InState st r
  Settled-InState State.in_order r h = h
  Settled-InState State.buffering r h = h
  Settled-InState State.done r h = h
  Settled-InState State.flush r h = absurd h
  Settled-InState State.start r h = absurd h
  Settled-InState State.filename r h = absurd h
  Settled-InState State.file_okay r h = absurd h

  -- What in_order is left for. BUFFERING has a packet beyond the current one.
  abbrev pub OrderLeft : State → Receiver → Type 0
  OrderLeft State.buffering r = InState State.buffering r × (r.window.current < r.window.highest)
  OrderLeft st r = Settled st r

  OrderLeft-InState : (st : State) (r : Receiver) → OrderLeft st r → InState st r
  OrderLeft-InState State.buffering r h = h.0
  OrderLeft-InState State.in_order r h = h
  OrderLeft-InState State.done r h = h
  OrderLeft-InState State.flush r h = absurd h
  OrderLeft-InState State.start r h = absurd h
  OrderLeft-InState State.filename r h = absurd h
  OrderLeft-InState State.file_okay r h = absurd h

  abbrev pub Never : Fault → Type 0
  Never f = ⊥

  pub seq-le : (p : Pdu) → Genuine chunks limit p → p.sequence_number ≤ length chunks
  seq-le p (inl (_, e, _, _)) =
      omega (arith, get_elem?-some_lt chunks p.sequence_number p.payload e)
  seq-le p (inr (_, e, _)) = omega arith

  pub stop :
      (r : Receiver)
      → IsReceiving sys (room sys buffer_size) chunks limit wide begun r
      → IsStopped sys chunks limit begun r
  stop r v = record {
    accepted = r.window.current;
    from = v.from;
    reached = v.reached;
    whole = λ h. v.file ∙ ap concat (take_all r.window.current chunks h);
    file = rw v.file (concat-take_prefix r.window.current chunks);
    replies = v.replies;
  }

  pub accepted-stop :
      (r : Receiver) (v : IsReceiving sys (room sys buffer_size) chunks limit wide begun r)
      → (stop r v).accepted ≡ r.window.current
  unfolding stop
  accepted-stop r v = refl

  abbrev pub Ok : Receiver → Type 0
  Ok = IsReceiving sys (room sys buffer_size) chunks limit wide begun

  -- A write that has stopped within the current chunk.
  pub stop_partial :
      (r : Receiver) (c : List ℕ) (k : ℕ)
      → Ok r
      → get_elem? chunks r.window.current ≡ some c
      → IsStopped sys chunks limit begun (with_file r (r.file ++ take k c))
  stop_partial r c k v e = record {
    accepted = r.window.current;
    from = v.from;
    reached = v.reached;
    whole = λ h. absurd (omega (arith, get_elem?-some_lt chunks r.window.current c e));
    file = rw v.file (partial_prefix chunks r.window.current k c e);
    replies = v.replies;
  }

  pub stop_acknowledged :
      (r : Receiver)
      → Ok r
      → length chunks ≤ r.window.current
      → IsStopped sys chunks limit begun (send_eof_ack sys r)
  unfolding send_eof_ack stop
  stop_acknowledged r v h = record {
    accepted = r.window.current;
    from = v.from;
    reached = v.reached;
    whole = (stop r v).whole;
    file = (stop r v).file;
    replies = (Reply.eof_ack r.sequence_number sys.stack_byte v.number h refl, v.replies);
  }

  module _ (P : Receiver → Type 0) (Q : State → Receiver → Type 0) where
    pub accept-write-Is :
        (next : State) (mark : Receiver → Receiver) (c : List ℕ) (r : Receiver)
        → (let r' = advance (mark (with_file r (r.file ++ c))) in
            Q next (send_rr sys r'.window.current r'))
        → ((k : ℕ) → Q State.done (with_file r (r.file ++ take k c)))
        → TurnIs P Q Never (accept sys buffer_size next mark (write sys c r))
    unfolding accept
    accept-write-Is next mark c r good bad = elim (write_cases sys c r) [
      | inl e ↦ subst (λ t. TurnIs P Q Never (accept sys buffer_size next mark t)) (sym e) good
      | inr (k, e) ↦
          subst (λ t. TurnIs P Q Never (accept sys buffer_size next mark t)) (sym e) (bad k)
    ]

  pub on_time :
      (p : Pdu) (current size : ℕ) (buffer : List ℕ)
      → Timely chunks limit (room sys buffer_size) current size buffer (some p)
      → ¬ (p.sequence_number < current)
      → IsTimely chunks limit (room sys buffer_size) current size buffer p
  on_time p current size buffer (inl late) h = absurd (h late)
  on_time p current size buffer (inr t) h = t

  send_rr-IsEmpty :
      (r : Receiver) → IsEmpty r.window → IsEmpty (send_rr sys r.window.lower r).window
  unfolding send_rr
  send_rr-IsEmpty r empty = empty

  abbrev pub Nowhere : Receiver → Type 0
  Nowhere r = ⊥

  in_order_expected-Is :
      (p : Pdu) (r : Receiver)
      → Ok r
      → IsEmpty r.window
      → Genuine chunks limit p
      → p.sequence_number ≡ r.window.current
      → TurnIs Nowhere OrderLeft Never (in_order_expected sys buffer_size p r)
  unfolding in_order_expected send_rr
  in_order_expected-Is p r v empty (inl (flag, e, pos, lt)) here =
      rw (==-ne p.recv_flag eof_flag flag, ==-ne (length p.payload) 0 (λ q. omega arith))
        (accept-write-Is Nowhere OrderLeft State.in_order (with_highest p.sequence_number) p.payload
          r
          (
            advance-IsReceiving sys (room sys buffer_size) chunks limit wide begun r' p.payload ok'
                chunk (empty' r'.window.current (omega arith) (omega (arith, v.window.positive)))
                (omega (arith, here)),
            advance-IsEmpty sys (room sys buffer_size) chunks limit wide begun r' ok' empty',
          )
          (λ k. stop_partial r p.payload k v chunk))
    where
      r' : Receiver
      r' = with_highest p.sequence_number r

      chunk : get_elem? chunks r.window.current ≡ some p.payload
      chunk = subst (λ n. get_elem? chunks n ≡ some p.payload) here e

      ok' : Ok r'
      ok' =
          highest-IsReceiving sys (room sys buffer_size) chunks limit wide begun r p.sequence_number
            v empty (omega (arith, v.current)) (omega (arith, v.window.positive))

      empty' : IsEmpty r'.window
      empty' = empty
  in_order_expected-Is p r v empty (inr (flag, e, _)) here =
      rw ((==_iff p.recv_flag eof_flag).1 flag) (stop_acknowledged r v (omega arith))

  module _ (fits : room sys buffer_size ≤ packet_pdu_size) (top : limit ≤ length chunks) where
    in_order_ahead-Is :
        (buffer : List ℕ) (p : Pdu) (r : Receiver)
        → Ok r
        → IsEmpty r.window
        → IsTimely chunks limit
            (room sys buffer_size)
            r.window.current
            r.window.window_size
            buffer
            p
        → r.window.current < p.sequence_number
        → TurnIs Nowhere OrderLeft Never (in_order_ahead sys buffer_size buffer p.sequence_number r)
    unfolding in_order_ahead
    in_order_ahead-Is buffer p r v empty t lo = rw stores.1 ((kept, free), gap)
      where
        asked : Receiver
        asked = send_srejs sys r.window.current p.sequence_number r

        same : asked.window ≡ r.window
        same = window-send_srejs sys r.window.current p.sequence_number r

        empty' : IsEmpty asked.window
        empty' = subst IsEmpty (sym same) empty

        r' : Receiver
        r' = with_highest p.sequence_number asked

        ok' : Ok r'
        ok' =
            highest-IsReceiving sys (room sys buffer_size) chunks limit wide begun asked
              p.sequence_number
              (send_srejs-IsReceiving sys (room sys buffer_size) chunks limit wide begun
                r.window.current p.sequence_number r v t.known top)
              empty' (seq-le p t.genuine) (rw same t.within)

        stores :
            Stores sys (room sys buffer_size) chunks limit wide begun r' buffer p.sequence_number
        stores =
            store-IsReceiving sys (room sys buffer_size) chunks limit wide begun r' buffer p ok'
              fits t.short t.parsed t.genuine (rw same lo) (rw same t.within) (seq-le p t.genuine)

        kept : Ok (with_window r' stores.0)
        kept =
            stores.5 stores.0.highest (omega (arith, stores.4)) (omega (arith, stores.4))
              (omega (arith, stores.4, seq-le p t.genuine)) (omega (arith, stores.4, ok'.near))

        gap : stores.0.current < stores.0.highest
        gap = omega (arith, stores.3, stores.4, ap (λ w. w.current) same, lo)

        free : stored stores.0 stores.0.current ≡ some none
        free =
            subst (λ n. stored stores.0 n ≡ some none) (sym stores.3)
              (stores.2
                ∙ empty' asked.window.current (omega arith) (omega (arith, ok'.window.positive)))

    -- One turn of in_order after a datagram, given the datagram's bytes and what processPDU makes
    -- of it, keeps the receiver's invariant and has no fault. The receiver satisfies the condition
    -- of IN_ORDER, and the datagram is corrupted, has a number below the window, or is a genuine
    -- packet of the window that the server has sent. The turn is left for IN_ORDER with an empty
    -- window, for BUFFERING with the current packet missing and the highest number above the
    -- current one, or for DONE with a prefix of the file written; it is never left for FLUSH. A
    -- datagram with its header fits a slot, and the server has sent no more than the file.
    pub in_order_response-Is :
        (buffer : List ℕ) (o : Option Pdu) (r : Receiver)
        → InState State.in_order r
        → Timely chunks limit (room sys buffer_size) r.window.current r.window.window_size buffer o
        → TurnIs Nowhere OrderLeft Never (in_order_response sys buffer_size buffer o r)
    unfolding in_order_response
    in_order_response-Is buffer none r (v, empty) t = (v, empty)
    in_order_response-Is buffer (some p) r (v, empty) t =
        elim (dec_lt p.sequence_number r.window.current) [
          | yes before ↦ subst In (sym (leb_lt p.sequence_number r.window.current before)) (
            send_rr-IsReceiving sys (room sys buffer_size) chunks limit wide begun r r.window.lower
                v (omega (arith, v.lower)),
            send_rr-IsEmpty r empty,
          )
          | no here ↦
              subst In (sym (leb_ge p.sequence_number r.window.current (omega arith)))
                (now here (on_time p r.window.current r.window.window_size buffer t here))
        ]
      where
        In : Bool → Type 0
        In b = TurnIs Nowhere OrderLeft Never (
            if b
            then (if p.sequence_number == r.window.current
                then in_order_expected sys buffer_size p r
                else in_order_ahead sys buffer_size buffer p.sequence_number r)
            else leave State.in_order (send_rr sys r.window.lower r))

        now :
            ¬ (p.sequence_number < r.window.current)
            → IsTimely chunks limit
                (room sys buffer_size)
                r.window.current
                r.window.window_size
                buffer
                p
            → In true
        now here k = elim (ℕ_discrete p.sequence_number r.window.current) [
          | yes q ↦
              rw ((==_iff p.sequence_number r.window.current).1 q)
                (in_order_expected-Is p r v empty k.genuine q)
          | no ne ↦
              rw (==-ne p.sequence_number r.window.current ne)
                (in_order_ahead-Is buffer p r v empty k (lt_of_ge_ne here ne))
        ]

    pub in_order_response-InState :
        (buffer : List ℕ) (o : Option Pdu) (r : Receiver)
        → InState State.in_order r
        → Timely chunks limit (room sys buffer_size) r.window.current r.window.window_size buffer o
        → TurnIs Nowhere InState Never (in_order_response sys buffer_size buffer o r)
    in_order_response-InState buffer o r v t =
        TurnIs-weaken Nowhere OrderLeft InState Never (in_order_response sys buffer_size buffer o r)
          OrderLeft-InState (in_order_response-Is buffer o r v t)
