-- ===== src/Rcopy/Runs.antt =====
-- Runs of in_order, buffering and flush (project_3/rcopy.c) against a genuine server.
use remotecopy.Base.{ℕ, ◌≤◌, ◌≡◌, refl, subst, List, length}
use remotecopy.Base.Control.{Event, timeout, arrives, Turn, again, leave, TurnIs}
use remotecopy.Pdu.{process_pdu}
use remotecopy.Window.{packet_pdu_size}
use remotecopy.Rcopy.State.{State, System, Receiver}
use remotecopy.Rcopy.Transfer.{room, received, in_order_answer, buffering_answer, flush}
use remotecopy.Rcopy.Turns.{
  Timely, IsStopped, InState, Never, Nowhere, stop, in_order_response-InState,
}
use remotecopy.Rcopy.Buffer.{Buffering, buffering_response-InState}
use remotecopy.Rcopy.Flush.{flush-InState}

module _ (sys : System) (buffer_size : ℕ) (chunks : List (List ℕ)) (limit wide begun : ℕ) where
  -- What a poll brings to a window of `size` from `current`.
  abbrev pub Hears : ℕ → ℕ → Event → Type 0
  Hears current size timeout = Unit {0}
  Hears current size (arrives datagram) =
      Timely chunks limit (room sys buffer_size) current size (received sys buffer_size datagram)
        (process_pdu sys.in_cksum (received sys buffer_size datagram))

  abbrev pub HeardBy : Receiver → Event → Type 0
  HeardBy r = Hears r.window.current r.window.window_size

  -- The states that a receiver comes to from `first` in IN_ORDER. `listens` is a round of buffering
  -- that stays in its loop.
  pub data Reaches (first : Receiver) : State → Receiver → Type 0 where
    starts : Reaches first State.in_order first
    in_orders :
        (e : Event) (r : Receiver) (st : State) (r' : Receiver)
        → Reaches first State.in_order r
        → HeardBy r e
        → in_order_answer sys buffer_size e r ≡ leave st r'
        → Reaches first st r'
    listens :
        (e : Event) (r r' : Receiver)
        → Reaches first State.buffering r
        → HeardBy r e
        → buffering_answer sys buffer_size e r ≡ again r'
        → Reaches first State.buffering r'
    buffers :
        (e : Event) (r : Receiver) (st : State) (r' : Receiver)
        → Reaches first State.buffering r
        → HeardBy r e
        → buffering_answer sys buffer_size e r ≡ leave st r'
        → Reaches first st r'
    flushes :
        (r : Receiver) (st : State) (r' : Receiver)
        → Reaches first State.flush r
        → flush sys buffer_size r ≡ leave st r'
        → Reaches first st r'

  abbrev In : State → Receiver → Type 0
  In = InState sys buffer_size chunks limit wide begun

  abbrev pub OnlyLeft : Turn Receiver State → Type 0
  OnlyLeft =
      TurnIs (Nowhere sys buffer_size chunks limit wide begun) In
        (Never sys buffer_size chunks limit wide begun)

  -- Each state's receiver could stop there.
  pub stopped : (st : State) (r : Receiver) → In st r → IsStopped sys chunks limit begun r
  stopped State.in_order r (v, _) = stop sys buffer_size chunks limit wide begun r v
  stopped State.buffering r (v, _) = stop sys buffer_size chunks limit wide begun r v
  stopped State.flush r v = stop sys buffer_size chunks limit wide begun r v
  stopped State.done r v = v
  stopped State.start r v = absurd v
  stopped State.filename r v = absurd v
  stopped State.file_okay r v = absurd v

  module _ (fits : room sys buffer_size ≤ packet_pdu_size) (top : limit ≤ length chunks) where
    pub in_order_answer-Is :
        (e : Event) (r : Receiver)
        → In State.in_order r
        → HeardBy r e
        → OnlyLeft (in_order_answer sys buffer_size e r)
    unfolding in_order_answer
    in_order_answer-Is timeout r v h = stopped State.in_order r v
    in_order_answer-Is (arrives d) r v h =
        in_order_response-InState sys buffer_size chunks limit wide begun fits top
          (received sys buffer_size d) (process_pdu sys.in_cksum (received sys buffer_size d)) r v h

    abbrev pub Listening : Receiver → Turn Receiver State → Type 0
    Listening r =
        TurnIs
          (Buffering sys buffer_size chunks limit wide begun r.window.current r.window.window_size)
          In (Never sys buffer_size chunks limit wide begun)

    pub buffering_answer-Is :
        (e : Event) (r : Receiver)
        → In State.buffering r
        → HeardBy r e
        → Listening r (buffering_answer sys buffer_size e r)
    unfolding buffering_answer
    buffering_answer-Is timeout r v h = stopped State.buffering r v
    buffering_answer-Is (arrives d) r v h =
        buffering_response-InState sys buffer_size chunks limit wide begun fits top r.window.current
          r.window.window_size (received sys buffer_size d)
          (process_pdu sys.in_cksum (received sys buffer_size d)) r (v, refl, refl) h

    pub Reaches-InState :
        (first : Receiver)
        → In State.in_order first
        → (st : State) (r : Receiver) → Reaches first st r
        → In st r
    Reaches-InState first v _ _ starts = v
    Reaches-InState first v _ _ (in_orders e r st r' past h q) =
        subst OnlyLeft q (in_order_answer-Is e r (Reaches-InState first v _ r past) h)
    Reaches-InState first v _ _ (listens e r r' past h q) =
        (subst (Listening r) q (buffering_answer-Is e r (Reaches-InState first v _ r past) h)).0
    Reaches-InState first v _ _ (buffers e r st r' past h q) =
        subst (Listening r) q (buffering_answer-Is e r (Reaches-InState first v _ r past) h)
    Reaches-InState first v _ _ (flushes r st r' past q) =
        subst OnlyLeft q (
          flush-InState sys buffer_size chunks limit wide begun r
            (Reaches-InState first v _ r past))
