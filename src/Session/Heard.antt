-- ===== src/Session/Heard.antt =====
-- What rcopy hears in a transfer, as the events of one run.
use remotecopy.Base.{
  ℕ, ◌≡◌, refl, subst, true, false, List, [], ◌∷◌, ◌++◌, Bool-cases, inl, inr, if◌then◌else◌,
}
use remotecopy.Base.Control.{Event, Turn, again, leave, crash, TurnIs}
use remotecopy.Window.{WindowArray}
use remotecopy.Server.State as Server
use remotecopy.Rcopy.State as Rcopy
use remotecopy.Rcopy.State.{Receiver}
use remotecopy.Rcopy.Flush.{flush-InState}
use remotecopy.Rcopy.Turns.{InState, Never, Nowhere}
use remotecopy.Rcopy.Transfer.{flush}
use remotecopy.Session.{Place, Site, Runs, advance_client, listen}
use remotecopy.Session.Refine.{polls_client}
use remotecopy.Session.Receiving.{InSite}
use remotecopy.Session.Copy.{IsTransfer, Starts, first_place, first_site, together}
use remotecopy.Session.Trail.{Trail, Trail-goes, Trail-takes}

-- The flush that begins here, if any, is left or breaks off.
abbrev pub Flushes : Rcopy.System → ℕ → Site → Type 0
Flushes client buffer_size d =
    (r r' : Receiver)
    → d ≡ Site.stands Rcopy.State.flush r
    → flush client buffer_size r ≡ again r'
    → ⊥

abbrev pub ClientTrail : Rcopy.System → ℕ → Site → Site → List Event → Type 0
ClientTrail client buffer_size =
    Trail (advance_client client buffer_size) (listen client buffer_size) polls_client
      (Flushes client buffer_size)

module _ (server : Server.System) (client : Rcopy.System) (buffer_size : ℕ) (p : Place)
    (c : Site) where
  -- What rcopy hears in a run, in its order.
  unfoldable pub heard :
      (q : Place) (d : Site) → Runs server client buffer_size p c q d → List Event
  heard _ _ Runs.begins = []
  heard _ d (Runs.serves q _ run) = heard q d run
  heard q _ (Runs.advances _ d run) = heard q d run
  heard _ d (Runs.answers e q _ run h) = heard q d run
  heard q _ (Runs.listens e _ d run h) =
      let before = heard q d run in if polls_client d then before ++ e ∷ [] else before

-- A site that does not poll hears nothing.
listen-deaf :
    (client : Rcopy.System) (buffer_size : ℕ) (e : Event) (d : Site)
    → polls_client d ≡ false
    → listen client buffer_size e d ≡ d
unfolding listen
listen-deaf client buffer_size e (Site.stands Rcopy.State.in_order r) n = absurd (cc)
listen-deaf client buffer_size e (Site.stands Rcopy.State.buffering r) n = absurd (cc)
listen-deaf client buffer_size e (Site.stands Rcopy.State.start r) n = refl
listen-deaf client buffer_size e (Site.stands Rcopy.State.filename r) n = refl
listen-deaf client buffer_size e (Site.stands Rcopy.State.file_okay r) n = refl
listen-deaf client buffer_size e (Site.stands Rcopy.State.flush r) n = refl
listen-deaf client buffer_size e (Site.stands Rcopy.State.done r) n = refl
listen-deaf client buffer_size e (Site.breaks f r) n = refl

-- A site that polls stays as it is without an event.
pub advance_client-rests :
    (client : Rcopy.System) (buffer_size : ℕ) (d : Site)
    → polls_client d ≡ true
    → advance_client client buffer_size d ≡ d
unfolding advance_client
advance_client-rests client buffer_size (Site.stands Rcopy.State.in_order r) n = refl
advance_client-rests client buffer_size (Site.stands Rcopy.State.buffering r) n = refl
advance_client-rests client buffer_size (Site.stands Rcopy.State.start r) n = refl
advance_client-rests client buffer_size (Site.stands Rcopy.State.filename r) n = refl
advance_client-rests client buffer_size (Site.stands Rcopy.State.file_okay r) n = refl
advance_client-rests client buffer_size (Site.stands Rcopy.State.flush r) n = absurd (cc)
advance_client-rests client buffer_size (Site.stands Rcopy.State.done r) n = refl
advance_client-rests client buffer_size (Site.breaks f r) n = refl

module _ (server : Server.System) (client : Rcopy.System) (buffer_size : ℕ) (chunks : List (List ℕ))
    (size : ℕ) (w : WindowArray) (seq : ℕ) (sent requests : List (List ℕ))
    (t : IsTransfer server client buffer_size chunks size w seq sent requests) where
  abbrev From : Place → Site → Type 0
  From = Starts server client buffer_size chunks size w seq sent requests t

  not_again :
      (limit begun : ℕ) (r' : Receiver) (turn : Turn Receiver Rcopy.State)
      → TurnIs
          (Nowhere client buffer_size chunks limit size begun)
          (InState client buffer_size chunks limit size begun)
          (Never client buffer_size chunks limit size begun)
          turn
      → turn ≡ again r'
      → ⊥
  not_again limit begun r' (again r) h e = h
  not_again limit begun r' (leave st r) h e = absurd (cc)
  not_again limit begun r' (crash f) h e = h

  sited-Flushes :
      (limit accepted : ℕ) (d : Site)
      → InSite client buffer_size chunks size limit accepted d
      → Flushes client buffer_size d
  sited-Flushes limit accepted d v r r' e q =
      let v' = subst (InSite client buffer_size chunks size limit accepted) e v in
      not_again limit accepted r' (flush client buffer_size r)
        (flush-InState client buffer_size chunks limit size accepted r (v'.0)) q

  -- The steps of rcopy on the way to where the two have come.
  pub Runs-Trail :
      (q : Place) (d : Site) (run : From q d)
      → ClientTrail client buffer_size d
          (first_site w seq requests)
          (heard server client buffer_size (first_place w sent) (first_site w seq requests) q d run)
  unfolding heard
  Runs-Trail _ _ Runs.begins = Trail.ends
  Runs-Trail _ d (Runs.serves q _ run) = Runs-Trail q d run
  Runs-Trail q _ (Runs.advances _ d run) =
      let v = together server client buffer_size chunks size w seq sent requests t q d run in
      Trail-goes _ _ _ _ d _ _ (sited-Flushes _ v.accepted d v.sited) (Runs-Trail q d run)
  Runs-Trail _ d (Runs.answers e q _ run c) = Runs-Trail q d run
  Runs-Trail q _ (Runs.listens e _ d run c) = elim (Bool-cases (polls_client d)) [
    | inl i ↦ rw i (Trail-takes _ _ _ _ e d _ _ i (Runs-Trail q d run))
    | inr n ↦ rw (n, listen-deaf client buffer_size e d n) (Runs-Trail q d run)
  ]
