-- ===== src/Session/Answered.antt =====
-- The whole of process_client (project_3/server.c) over what the child hears in a transfer.
use remotecopy.Base.{
  ℕ, ◌≡◌, refl, ap, subst, true, false, some, List, [], ◌∷◌, ◌++◌, take, Bool-cases, inl, inr,
  if◌then◌else◌,
}
use remotecopy.Base.Control.{Event, Outcome, returned, waiting, faulted, Fault}
use remotecopy.Base.Machine.{IsFinal}
use remotecopy.Window.{WindowArray}
use remotecopy.Server.State as Server
use remotecopy.Server.State.{Sender}
use remotecopy.Server.Parent.{setup_buffer_length}
use remotecopy.Server.Process.{Child, process_client, is_done, switch, sender_of}
use remotecopy.Server.Termination.{process_client-IsFinal}
use remotecopy.Rcopy.State as Rcopy
use remotecopy.Rcopy.Args.{arguments_of}
use remotecopy.Rcopy.Process.{Client, fresh_client, filename, setup_pdu}
use remotecopy.Session.{Place, Site, sender_at, Runs, serve, answer}
use remotecopy.Session.Loops.{Steps}
use remotecopy.Session.Refine.{polls_server}
use remotecopy.Session.Copy.{first_place, first_site}
use remotecopy.Session.ProcessClient.{ChildComes}
use remotecopy.Session.Begin.{IsRequest, response, programs-Come}
use remotecopy.Session.Trail.{Trail, Trail-goes, Trail-takes, Steps-fixed, Steps-polls}
use remotecopy.Session.Whole.{Ensues}

module _ (server : Server.System) (client : Rcopy.System) (buffer_size : ℕ) (p : Place)
    (c : Site) where
  -- What the child hears in a run, in its order.
  unfoldable pub heard_by_child :
      (q : Place) (d : Site) → Runs server client buffer_size p c q d → List Event
  heard_by_child _ _ Runs.begins = []
  heard_by_child _ d (Runs.serves q _ run) = heard_by_child q d run
  heard_by_child q _ (Runs.advances _ d run) = heard_by_child q d run
  heard_by_child _ d (Runs.answers e q _ run h) =
      let before = heard_by_child q d run in if polls_server q then before ++ e ∷ [] else before
  heard_by_child q _ (Runs.listens e _ d run h) = heard_by_child q d run

-- A place that does not poll hears nothing.
answer-deaf :
    (server : Server.System) (buffer_size : ℕ) (e : Event) (q : Place)
    → polls_server q ≡ false
    → answer server buffer_size e q ≡ q
unfolding answer
answer-deaf server buffer_size e (Place.tests_open s) n = refl
answer-deaf server buffer_size e (Place.polls_open s) n = absurd (cc)
answer-deaf server buffer_size e (Place.tests_closed w) n = refl
answer-deaf server buffer_size e (Place.polls_closed w) n = absurd (cc)
answer-deaf server buffer_size e (Place.tests_eof w) n = refl
answer-deaf server buffer_size e (Place.polls_eof w) n = absurd (cc)
answer-deaf server buffer_size e (Place.stops st s) n = refl
answer-deaf server buffer_size e (Place.faults f s) n = refl

-- A place that polls stays as it is without an event.
serve-rests :
    (server : Server.System) (buffer_size : ℕ) (q : Place)
    → polls_server q ≡ true
    → serve server buffer_size q ≡ q
unfolding serve
serve-rests server buffer_size (Place.tests_open s) n = absurd (cc)
serve-rests server buffer_size (Place.polls_open s) n = refl
serve-rests server buffer_size (Place.tests_closed w) n = absurd (cc)
serve-rests server buffer_size (Place.polls_closed w) n = refl
serve-rests server buffer_size (Place.tests_eof w) n = absurd (cc)
serve-rests server buffer_size (Place.polls_eof w) n = refl
serve-rests server buffer_size (Place.stops st s) n = refl
serve-rests server buffer_size (Place.faults f s) n = refl

module _ (server : Server.System) (buffer_size : ℕ) where
  abbrev ChildTrail : Place → Place → List Event → Type 0
  ChildTrail =
      Trail (serve server buffer_size) (answer server buffer_size) polls_server (λ q. Unit {0})

  Runs-ChildTrail :
      (client : Rcopy.System) (p : Place) (c : Site) (q : Place) (d : Site)
      → (run : Runs server client buffer_size p c q d)
      → ChildTrail q p (heard_by_child server client buffer_size p c q d run)
  unfolding heard_by_child
  Runs-ChildTrail client p c _ _ Runs.begins = Trail.ends
  Runs-ChildTrail client p c _ d (Runs.serves q _ run) =
      Trail-goes _ _ _ _ q _ _ tt (Runs-ChildTrail client p c q d run)
  Runs-ChildTrail client p c q _ (Runs.advances _ d run) = Runs-ChildTrail client p c q d run
  Runs-ChildTrail client p c _ d (Runs.answers e q _ run h) = elim (Bool-cases (polls_server q)) [
    | inl i ↦ rw i (Trail-takes _ _ _ _ e q _ _ i (Runs-ChildTrail client p c q d run))
    | inr n ↦ rw (n, answer-deaf server buffer_size e q n) (Runs-ChildTrail client p c q d run)
  ]
  Runs-ChildTrail client p c q _ (Runs.listens e _ d run h) = Runs-ChildTrail client p c q d run

  module _ (s : Sender) where
    -- A run that has ended in DONE with what `s` holds, and no events left.
    abbrev pub EndsWith : Outcome Child Server.State → Type 0
    EndsWith o =
        (c : Child) × (w : WindowArray) × (o ≡ returned Server.State.done [] c)
        × (c.window ≡ some w)
        × (s ≡ sender_of server w c)

    abbrev ToDone : Place → List Event → Type 0
    ToDone = ChildTrail (Place.stops Server.State.done s)

    fixed_stops :
        (st : Server.State) (s' : Sender)
        → serve server buffer_size (Place.stops st s') ≡ Place.stops st s'
    unfolding serve
    fixed_stops st s' = refl

    fixed_faults :
        (f : Fault) (s' : Sender) → serve server buffer_size (Place.faults f s') ≡ Place.faults f s'
    unfolding serve
    fixed_faults f s' = refl

    module _ (p : Place) (es : List Event) (t : ToDone p es) where
      -- A place to which the steps lead, and which is left by no step, is the end of the steps.
      fixed :
          (q q' : Place) (left : List Event)
          → Steps (serve server buffer_size) (answer server buffer_size) polls_server q left p es
          → q ≡ q'
          → polls_server q' ≡ false
          → serve server buffer_size q' ≡ q'
          → (Place.stops Server.State.done s ≡ q') × (left ≡ [])
      fixed q q' left h at =
          Steps-fixed (serve server buffer_size) (answer server buffer_size) polls_server
            (λ r. Unit {0}) (serve-rests server buffer_size) (Place.stops Server.State.done s)
            (fixed_stops Server.State.done s) p es t q' left
            (subst
              (λ r.
                Steps (serve server buffer_size) (answer server buffer_size) polls_server r left p
                  es)
              at h)

      comes-EndsWith :
          (buf : List ℕ) (o : Outcome Child Server.State)
          → IsFinal is_done (switch server buf) o
          → ChildComes server buffer_size p es o
          → EndsWith o
      comes-EndsWith buf (returned Server.State.done left c) n (q, (i, b, (w, e, at)), h) =
          let (same, none_left) = fixed q _ left h at refl (fixed_stops Server.State.done _) in
          (c, w, ap (λ l. returned Server.State.done l c) none_left, e, ap sender_at same)
      comes-EndsWith buf (returned Server.State.start left c) n h = absurd (cc)
      comes-EndsWith buf (returned Server.State.filename left c) n h = absurd (cc)
      comes-EndsWith buf (returned Server.State.window_open left c) n h = absurd (cc)
      comes-EndsWith buf (returned Server.State.window_closed left c) n h = absurd (cc)
      comes-EndsWith buf (returned Server.State.end_of_file left c) n h = absurd (cc)
      comes-EndsWith buf (waiting c) n (q, left, (gone, (w, e, polls, _)), h) = absurd (
          Steps-polls (serve server buffer_size) (answer server buffer_size) polls_server
            (λ r. Unit {0}) (serve-rests server buffer_size) (Place.stops Server.State.done s)
            (fixed_stops Server.State.done s) p es t q left h refl polls gone)
      comes-EndsWith buf (faulted f) n (q, left, (s', at), h) =
          let (same, none_left) = fixed q (Place.faults f s') left h at refl (fixed_faults f s') in
          absurd (cc)

module _ (server : Server.System) (client : Rcopy.System) (argv : List (List ℕ))
    (chunks : List (List ℕ)) (w : WindowArray) (request : IsRequest server client argv chunks w)
    (asking : List Event) (c : Client)
    (answered : filename client (arguments_of argv) asking fresh_client
      ≡ returned Rcopy.State.file_okay [] c) where
  -- Under the conditions of `IsRequest`, and if rcopy's filename is left for FILE_OKAY behind some
  -- events: for every run of the transfer in which the child comes to DONE, process_client on the
  -- setup packet, over what the child hears in the run, in its order, returns in DONE with no event
  -- left, and its variables hold what the child's do at the end of the run.
  pub Runs-process_client :
      (s : Sender) (d : Site)
      → (run : Ensues server client argv chunks w request asking c answered
          (Place.stops Server.State.done s)
          d)
      → EndsWith server (arguments_of argv).buffer_size s (
          process_client server
            (take setup_buffer_length (setup_pdu client (arguments_of argv) 0))
            (heard_by_child server client
              (arguments_of argv).buffer_size
              (first_place w (response server ∷ []))
              (first_site w 1 c.sent)
              (Place.stops Server.State.done s)
              d
              run))
  Runs-process_client s d run =
      let buf = take setup_buffer_length (setup_pdu client (arguments_of argv) 0) in
      let es =
        heard_by_child server client (arguments_of argv).buffer_size
          (first_place w (response server ∷ [])) (first_site w 1 c.sent)
          (Place.stops Server.State.done s) d run in
      comes-EndsWith server (arguments_of argv).buffer_size s _ es
        (Runs-ChildTrail server (arguments_of argv).buffer_size client _ _ _ d run) buf _
        (process_client-IsFinal server buf es)
        ((programs-Come server client argv chunks w request es asking [] c answered).1)
