-- ===== src/Session/Receiving.antt =====
-- A step of project_3/rcopy.c in a transfer keeps the receiver's invariant.
use remotecopy.Base.{ℕ, ◌≤◌, ◌≡◌, refl, ◌∙◌, subst, List, length, arith}
use remotecopy.Base.Control.{Event, Turn, again, leave, crash, TurnIs}
use remotecopy.Window.{packet_pdu_size}
use remotecopy.Rcopy.State.{System, State, Receiver}
use remotecopy.Rcopy.Transfer.{room, in_order_answer, buffering_answer, flush}
use remotecopy.Rcopy.Invariant.{IsReceiving}
use remotecopy.Rcopy.Turns.{IsStopped, InState, Never, Nowhere, stop, accepted-stop}
use remotecopy.Rcopy.Buffer.{Buffering}
use remotecopy.Rcopy.Flush.{flush-InState}
use remotecopy.Rcopy.Runs.{Hears, in_order_answer-Is, buffering_answer-Is}
use remotecopy.Rcopy.Later.{IsReceiving-mono, IsStopped-mono}
use remotecopy.Session.{Site, listen, advance_client, settle, receiver_at}

module _ (sys : System) (buffer_size : ℕ) (chunks : List (List ℕ)) (wide : ℕ) where
  -- The condition of each site; `accepted` is the number of chunks that the receiver has accepted.
  -- It comes to no fault.
  abbrev pub InSite : ℕ → ℕ → Site → Type 0
  InSite limit accepted (Site.stands State.done r) =
      (v : IsStopped sys chunks limit accepted r) × (v.accepted ≡ accepted)
  InSite limit accepted (Site.stands st r) =
      InState sys buffer_size chunks limit wide accepted st r × (r.window.current ≡ accepted)
  InSite limit accepted (Site.breaks f r) = ⊥

  abbrev In : ℕ → ℕ → State → Receiver → Type 0
  In limit begun st r = InState sys buffer_size chunks limit wide begun st r

  of_receiving :
      (limit a : ℕ) (r : Receiver)
      → IsReceiving sys (room sys buffer_size) chunks limit wide a r
      → r.window.current ≡ a
      → (v : IsStopped sys chunks limit a r) × (v.accepted ≡ a)
  of_receiving limit a r v e = (
    stop sys buffer_size chunks limit wide a r v,
    accepted-stop sys buffer_size chunks limit wide a r v ∙ e,
  )

  restart :
      (limit a : ℕ) (r : Receiver)
      → IsReceiving sys (room sys buffer_size) chunks limit wide a r
      → IsReceiving sys (room sys buffer_size) chunks limit wide r.window.current r
  restart limit a r v = IsReceiving-mono sys buffer_size chunks limit limit wide a (omega arith) r v

  again_from :
      (l l' a : ℕ)
      → l ≤ l'
      → (r : Receiver) → IsReceiving sys (room sys buffer_size) chunks l wide a r
      → r.window.current ≡ a
      → IsReceiving sys (room sys buffer_size) chunks l' wide a r
  again_from l l' a h r v e =
      subst (λ n. IsReceiving sys (room sys buffer_size) chunks l' wide n r) e
        (IsReceiving-mono sys buffer_size chunks l l' wide a h r v)

  restopped :
      (limit a : ℕ) (r : Receiver) (v : IsStopped sys chunks limit a r)
      → InSite limit v.accepted (Site.stands State.done r)
  restopped limit a r v = (
    record {
      accepted = v.accepted;
      from = omega arith;
      reached = v.reached;
      whole = v.whole;
      file = v.file;
      replies = v.replies;
    },
    refl,
  )

  -- The receiver has ended, or could.
  pub InSite-stopped :
      (limit a : ℕ) (c : Site)
      → InSite limit a c
      → (v : IsStopped sys chunks limit a (receiver_at c)) × (v.accepted ≡ a)
  InSite-stopped limit a (Site.stands State.done r) v = v
  InSite-stopped limit a (Site.stands State.in_order r) ((v, _), e) = of_receiving limit a r v e
  InSite-stopped limit a (Site.stands State.buffering r) ((v, _), e) = of_receiving limit a r v e
  InSite-stopped limit a (Site.stands State.flush r) (v, e) = of_receiving limit a r v e
  InSite-stopped limit a (Site.stands State.start r) v = absurd v.0
  InSite-stopped limit a (Site.stands State.filename r) v = absurd v.0
  InSite-stopped limit a (Site.stands State.file_okay r) v = absurd v.0
  InSite-stopped limit a (Site.breaks f r) v = absurd v

  -- The condition for a server that has sent more.
  pub InSite-later : (l l' a : ℕ) → l ≤ l' → (c : Site) → InSite l a c → InSite l' a c
  InSite-later l l' a h (Site.stands State.done r) (v, e) =
      let (v', same) = IsStopped-mono sys buffer_size chunks l l' wide a h r v in (v', same ∙ e)
  InSite-later l l' a h (Site.stands State.in_order r) ((v, k), e) =
      ((again_from l l' a h r v e, k), e)
  InSite-later l l' a h (Site.stands State.buffering r) ((v, k), e) =
      ((again_from l l' a h r v e, k), e)
  InSite-later l l' a h (Site.stands State.flush r) (v, e) = (again_from l l' a h r v e, e)
  InSite-later l l' a h (Site.stands State.start r) v = absurd v.0
  InSite-later l l' a h (Site.stands State.filename r) v = absurd v.0
  InSite-later l l' a h (Site.stands State.file_okay r) v = absurd v.0
  InSite-later l l' a h (Site.breaks f r) v = absurd v

  -- The receiver has gone on, and has accepted no less.
  abbrev pub Onward : ℕ → ℕ → Site → Type 0
  Onward limit a c = (a' : ℕ) × (a ≤ a') × InSite limit a' c

  module _ (limit a : ℕ) where
    pub onward : (st : State) (r : Receiver) → In limit a st r → Onward limit a (Site.stands st r)
    onward State.done r v = (v.accepted, v.from, restopped limit a r v)
    onward State.in_order r (v, k) = (r.window.current, v.from, ((restart limit a r v, k), refl))
    onward State.buffering r (v, k) = (r.window.current, v.from, ((restart limit a r v, k), refl))
    onward State.flush r v = (r.window.current, v.from, (restart limit a r v, refl))
    onward State.start r v = absurd v
    onward State.filename r v = absurd v
    onward State.file_okay r v = absurd v

    settle-Onward :
        (M : Receiver → Type 0) (st : State) (r : Receiver) (t : Turn Receiver State)
        → ((r' : Receiver) → M r' → Onward limit a (Site.stands st r'))
        → TurnIs M (In limit a) (Never sys buffer_size chunks limit wide a) t
        → Onward limit a (settle sys buffer_size st r t)
    settle-Onward M st r (again r') go h = go r' h
    settle-Onward M st r (leave st' r') go h = onward st' r' h
    settle-Onward M st r (crash f) go h = absurd h

    pub advance_client-Onward :
        (c : Site) → InSite limit a c → Onward limit a (advance_client sys buffer_size c)
    unfolding advance_client
    advance_client-Onward (Site.stands State.flush r) (v, e) =
        settle-Onward (Nowhere sys buffer_size chunks limit wide a) State.flush r
          (flush sys buffer_size r) (λ r' k. absurd k)
          (flush-InState sys buffer_size chunks limit wide a r v)
    advance_client-Onward (Site.stands State.in_order r) v = (a, omega arith, v)
    advance_client-Onward (Site.stands State.buffering r) v = (a, omega arith, v)
    advance_client-Onward (Site.stands State.done r) v = (a, omega arith, v)
    advance_client-Onward (Site.stands State.start r) v = absurd v.0
    advance_client-Onward (Site.stands State.filename r) v = absurd v.0
    advance_client-Onward (Site.stands State.file_okay r) v = absurd v.0
    advance_client-Onward (Site.breaks f r) v = absurd v

    module _ (fits : room sys buffer_size ≤ packet_pdu_size) (top : limit ≤ length chunks) where
      pub listen-Onward :
          (e : Event) (c : Site)
          → InSite limit a c
          → Hears sys buffer_size chunks limit wide a a wide e
          → Onward limit a (listen sys buffer_size e c)
      unfolding listen
      listen-Onward e (Site.stands State.in_order r) (v, q) h =
          settle-Onward (Nowhere sys buffer_size chunks limit wide a) State.in_order r
            (in_order_answer sys buffer_size e r) (λ r' k. absurd k)
            (in_order_answer-Is sys buffer_size chunks limit wide a fits top e r v
              (rw (q, v.0.width) h))
      listen-Onward e (Site.stands State.buffering r) (v, q) h =
          settle-Onward
            (Buffering sys buffer_size chunks limit wide a r.window.current r.window.window_size)
            State.buffering r (buffering_answer sys buffer_size e r)
            (λ r' k. onward State.buffering r' k.0)
            (buffering_answer-Is sys buffer_size chunks limit wide a fits top e r v
              (rw (q, v.0.width) h))
      listen-Onward e (Site.stands State.flush r) v h = (a, omega arith, v)
      listen-Onward e (Site.stands State.done r) v h = (a, omega arith, v)
      listen-Onward e (Site.stands State.start r) v h = absurd v.0
      listen-Onward e (Site.stands State.filename r) v h = absurd v.0
      listen-Onward e (Site.stands State.file_okay r) v h = absurd v.0
      listen-Onward e (Site.breaks f r) v h = absurd v
