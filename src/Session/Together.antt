-- ===== src/Session/Together.antt =====
-- The two programs of a transfer together: the receiver has accepted no chunk that the child has not
-- read, and the child's window has not moved beyond what the receiver has accepted.
use mathlib.Core.List.{Memᴰ}
use remotecopy.Base.{ℕ, ◌+◌, ◌≤◌, ◌≡◌, sym, subst, inl, inr, List, [], ◌∷◌, arith, All}
use remotecopy.Base.Control.{Event, timeout, arrives}
use remotecopy.Pdu.{process_pdu}
use remotecopy.Server.State as Server
use remotecopy.Server.Transfer.{recv_buffer_length}
use remotecopy.Server.Turns.{IsReading, MayHear}
use remotecopy.Rcopy.State as Rcopy
use remotecopy.Rcopy.Transfer.{room, received}
use remotecopy.Rcopy.Genuine.{Reply}
use remotecopy.Rcopy.Turns.{Timely}
use remotecopy.Rcopy.Runs.{Hears}
use remotecopy.Session.{Place, Site, sender_at, receiver_at, Carried, Runs}
use remotecopy.Session.Hearing.{Timely-Transmission, MayHear-Reply}
use remotecopy.Session.Sending.{
  Any, InPlace, InPlace-Within, InPlace-move, serve-InPlace, Heeds, answer-InPlace,
}
use remotecopy.Session.Receiving.{
  InSite, InSite-stopped, InSite-later, Onward, advance_client-Onward, listen-Onward,
}

pub All-Memᴰ : (P : List ℕ → Type 0) (d : List ℕ) (ds : List (List ℕ)) → All P ds → Memᴰ d ds → P d
All-Memᴰ P d [] a m = elim m [ ]
All-Memᴰ P d (x ∷ ds) a (Memᴰ.head e) = subst P (sym e) a.0
All-Memᴰ P d (x ∷ ds) a (Memᴰ.tail m) = All-Memᴰ P d ds a.1 m

module _ (server : Server.System) (client : Rcopy.System) (buffer_size : ℕ) (chunks : List (List ℕ))
    (reading : IsReading server buffer_size chunks) (width : ℕ) where
  pub record Together (p : Place) (c : Site) : Type 0 where
    pub base : ℕ
    pub accepted : ℕ
    pub placed : InPlace server buffer_size chunks reading width base accepted p
    pub sited : InSite client buffer_size chunks width (sender_at p).window.current accepted c

  -- The child has taken a step from `p`.
  after_server :
      (p p' : Place) (c : Site) (accepted : ℕ)
      → InSite client buffer_size chunks width (sender_at p).window.current accepted c
      → InPlace server buffer_size chunks reading width (sender_at p).window.current accepted p'
      → Together p' c
  after_server p p' c accepted sited v = record {
    base = (sender_at p).window.current;
    accepted = accepted;
    placed = v;
    sited =
        InSite-later client buffer_size chunks width (sender_at p).window.current
          (sender_at p').window.current accepted
          (InPlace-Within server buffer_size chunks reading width (sender_at p).window.current
            accepted p' v).1.from
          c sited;
  }

  -- The receiver has taken a step.
  after_client :
      (p : Place) (c' : Site) (base accepted : ℕ)
      → InPlace server buffer_size chunks reading width base accepted p
      → Onward client buffer_size chunks width (sender_at p).window.current accepted c'
      → Together p c'
  after_client p c' base accepted v (a, le, sited) = record {
    base = (sender_at p).window.current;
    accepted = a;
    placed = InPlace-move server buffer_size chunks reading width base accepted a le p v;
    sited = sited;
  }

  -- The condition from where the child stands.
  here :
      (p : Place) (c : Site) (t : Together p c)
      → InPlace server buffer_size chunks reading width (sender_at p).window.current t.accepted p
  here p c t =
      InPlace-move server buffer_size chunks reading width t.base t.accepted t.accepted
        (omega arith) p t.placed

  module _ (fits : buffer_size ≤ 1400) (pos : 1 ≤ buffer_size)
      (same : client.in_cksum ≡ server.in_cksum) where
    heeds :
        (e : Event) (p : Place) (c : Site) (t : Together p c)
        → Carried server.in_cksum recv_buffer_length (receiver_at c).sent e
        → Heeds server buffer_size chunks reading width
            (sender_at p).window.current
            t.accepted
            fits
            pos
            (sender_at p)
            e
    heeds timeout p c t h = tt
    heeds (arrives d) p c t (inl e) = subst (MayHear Any t.accepted (sender_at p)) (sym e) tt
    heeds (arrives d) p c t (inr (m, _)) =
        let (stopped, a) =
          InSite-stopped client buffer_size chunks width (sender_at p).window.current t.accepted c
            t.sited in
        let v =
          (InPlace-Within server buffer_size chunks reading width t.base t.accepted p t.placed).1 in
        MayHear-Reply server.in_cksum Any (λ f. tt) chunks (sender_at p).window.current
          stopped.accepted t.accepted (sender_at p) d
          (subst (λ k. Reply k chunks (sender_at p).window.current stopped.accepted d) same
            (All-Memᴰ (Reply client.in_cksum chunks (sender_at p).window.current stopped.accepted) d
              (receiver_at c).sent stopped.replies m))
          (omega arith) stopped.reached (omega (arith, a))
          (omega (arith, v.serving.window.read, v.serving.window.small))

    hears :
        (e : Event) (p : Place) (c : Site) (t : Together p c)
        → Carried client.in_cksum (room client buffer_size) (sender_at p).sent e
        → Hears client buffer_size chunks
            (sender_at p).window.current
            width
            t.accepted
            t.accepted
            width
            e
    hears timeout p c t h = tt
    hears (arrives d) p c t (inl e) =
        subst
          (Timely chunks (sender_at p).window.current (room client buffer_size) t.accepted width
            (received client buffer_size d))
          (sym e) tt
    hears (arrives d) p c t (inr (m, ne)) =
        let s = sender_at p in
        let (stopped, a) =
          InSite-stopped client buffer_size chunks width s.window.current t.accepted c t.sited in
        let v =
          (InPlace-Within server buffer_size chunks reading width t.base t.accepted p t.placed).1 in
        subst
          (λ k.
            Timely chunks s.window.current (room client buffer_size) t.accepted width
              (received client buffer_size d) (process_pdu k (received client buffer_size d)))
          (sym same)
          (Timely-Transmission server.in_cksum chunks buffer_size reading.sized reading.filled
            (s.window.lower + s.window.window_size) s.window.lower s.window.current t.accepted width
            d (All-Memᴰ _ d s.sent v.serving.sent m) ne v.serving.window.reach
            (omega (arith, v.upto, v.wide)) v.upto (omega (arith, stopped.reached, a))
            v.serving.window.read (omega (arith, v.serving.window.small)) pos)

    -- In every state that the two come to, each keeps its invariant: the receiver is at no fault.
    pub Runs-Together :
        (p : Place) (c : Site)
        → Together p c
        → (q : Place) (d : Site) → Runs server client buffer_size p c q d
        → Together q d
    Runs-Together p c t _ _ Runs.begins = t
    Runs-Together p c t _ _ (Runs.serves q d past) =
        let u = Runs-Together p c t q d past in
        after_server q _ d u.accepted u.sited (
          serve-InPlace server buffer_size chunks reading width (sender_at q).window.current
            u.accepted fits pos q (here q d u))
    Runs-Together p c t _ _ (Runs.advances q d past) =
        let u = Runs-Together p c t q d past in
        after_client q _ u.base u.accepted u.placed (
          advance_client-Onward client buffer_size chunks width (sender_at q).window.current
            u.accepted d u.sited)
    Runs-Together p c t _ _ (Runs.answers e q d past h) =
        let u = Runs-Together p c t q d past in
        after_server q _ d u.accepted u.sited (
          answer-InPlace server buffer_size chunks reading width (sender_at q).window.current
            u.accepted fits pos e q (here q d u) (heeds e q d u h))
    Runs-Together p c t _ _ (Runs.listens e q d past h) =
        let u = Runs-Together p c t q d past in
        let v =
          (InPlace-Within server buffer_size chunks reading width u.base u.accepted q u.placed).1 in
        after_client q _ u.base u.accepted u.placed (
          listen-Onward client buffer_size chunks width (sender_at q).window.current u.accepted
            (omega arith) v.serving.window.read e d u.sited (hears e q d u h))
