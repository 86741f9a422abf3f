-- ===== src/Session/ProcessClient.antt =====
-- process_client of project_3/server.c from WINDOW_OPEN on, as steps of a transfer.
use remotecopy.Base.{
  ℕ, suc, ◌+◌, ◌*◌, ◌≡◌, refl, sym, subst, true, false, some, List, [], length, arith,
}
use remotecopy.Base.Control.{Event, Fault, Outcome, returned, waiting, faulted, ok}
use remotecopy.Base.Machine.{machine}
use remotecopy.Window.{WindowArray}
use remotecopy.Server.State.{State, System, Sender, Patience}
use remotecopy.Server.Transfer.{window_open, window_closed, end_of_file}
use remotecopy.Server.Process.{
  Child, is_done, switch, filename, process_client, fresh_child, sender_of, of_sender, of_patience,
  open_window,
}
use remotecopy.Session.{Place, sender_at, serve, answer, enter}
use remotecopy.Session.Rounds.{Comes, then_loop-Comes, machine-Comes}
use remotecopy.Session.Refine.{
  polls_server, ServerLands, window_open-Lands, window_closed-Lands, end_of_file-Lands,
}
use remotecopy.Session.States.{EndsIn}
use remotecopy.Session.States.Child.{
  OfChild, window_open-EndsIn, window_closed-EndsIn, end_of_file-EndsIn,
}

module _ (sys : System) (buffer_size : ℕ) where
  -- A child between two rounds of its loop stands where its state is entered, with what its
  -- variables hold.
  abbrev pub StandsAt : State → Child → Place → Type 0
  StandsAt st c p =
      OfChild st
      × (c.buf_size ≡ buffer_size)
      × ((w : WindowArray) × (c.window ≡ some w)
          × (p ≡ enter sys buffer_size st (sender_of sys w c)))

  -- A child that waits polls, with what its variables hold, and has heard all events.
  abbrev pub RestsAt : Child → List Event → Place → Type 0
  RestsAt c left p =
      (left ≡ [])
      × ((w : WindowArray) × (c.window ≡ some w)
          × (polls_server p ≡ true)
          × (sender_at p ≡ sender_of sys w c))

  abbrev pub BreaksAt : Fault → Place → Type 0
  BreaksAt f p = (s : Sender) × (p ≡ Place.faults f s)

  -- How a run of the child ends, in steps from `p`.
  abbrev pub ChildComes : Place → List Event → Outcome Child State → Type 0
  ChildComes =
      Comes (serve sys buffer_size) (answer sys buffer_size) polls_server StandsAt RestsAt BreaksAt

  of_sender-Comes :
      (c : Child) (p : Place) (es : List Event) (o : Outcome Sender State)
      → c.buf_size ≡ buffer_size
      → ServerLands sys buffer_size (λ x. x) Place.polls_open p es o
      → EndsIn OfChild o
      → ChildComes p es (of_sender sys c o)
  of_sender-Comes c p es (returned st left s) b h i =
      (enter sys buffer_size st s, (i, b, (s.window, refl, refl)), h)
  of_sender-Comes c p es (waiting s) b h i =
      (Place.polls_open s, [], (refl, (s.window, refl, refl, refl)), h)
  of_sender-Comes c p es (faulted f) b (s, left, h) i = (Place.faults f s, left, (s, refl), h)

  of_patience-Comes :
      (polls : Patience → Place)
      → ((w : Patience) → (polls_server (polls w) ≡ true) × (sender_at (polls w) ≡ w.sender))
      → (c : Child) (p : Place) (es : List Event) (o : Outcome Patience State)
      → c.buf_size ≡ buffer_size
      → ServerLands sys buffer_size (λ w. w.sender) polls p es o
      → EndsIn OfChild o
      → ChildComes p es (of_patience sys c o)
  of_patience-Comes polls at c p es (returned st left w) b h i =
      (enter sys buffer_size st w.sender, (i, b, (w.sender.window, refl, refl)), h)
  of_patience-Comes polls at c p es (waiting w) b h i =
      (polls w, [], (refl, (w.sender.window, refl, (at w).0, (at w).1)), h)
  of_patience-Comes polls at c p es (faulted f) b (w, left, h) i =
      (Place.faults f w.sender, left, (w.sender, refl), h)

  -- window_open for the first time, or again.
  opened-Comes :
      (c : Child) (w : WindowArray) (es : List Event)
      → c.buf_size ≡ buffer_size
      → open_window sys c ≡ some w
      → (buf : List ℕ)
      → ChildComes (Place.tests_open (sender_of sys w c)) es (switch sys buf State.window_open es c)
  unfolding switch
  opened-Comes c w es b e buf = rw e (
      subst
        (λ n.
          ChildComes (Place.tests_open (sender_of sys w c)) es
            (of_sender sys c (window_open sys n es (sender_of sys w c))))
        (sym b)
        (of_sender-Comes c (Place.tests_open (sender_of sys w c)) es _ b
          (window_open-Lands sys buffer_size es (sender_of sys w c))
          (window_open-EndsIn sys buffer_size es (sender_of sys w c))))

  round :
      (buf : List ℕ) (st : State) (es : List Event) (c : Child) (p : Place)
      → is_done st ≡ false
      → StandsAt st c p
      → ChildComes p es (switch sys buf st es c)
  unfolding switch
  round buf State.start es c p n (i, b, (w, e, q)) = absurd i
  round buf State.filename es c p n (i, b, (w, e, q)) = absurd i
  round buf State.window_open es c p n (i, b, (w, e, q)) =
      subst (λ p'. ChildComes p' es (switch sys buf State.window_open es c)) (sym q)
        (opened-Comes c w es b (rw e refl) buf)
  round buf State.window_closed es c p n (i, b, (w, e, q)) =
      rw (q, e)
        (subst
          (λ n.
            ChildComes (enter sys buffer_size State.window_closed (sender_of sys w c)) es
              (of_patience sys c (window_closed sys n es (sender_of sys w c))))
          (sym b)
          (of_patience-Comes Place.polls_closed (λ w'. (refl, refl)) c _ es _ b
            (window_closed-Lands sys buffer_size es (sender_of sys w c))
            (window_closed-EndsIn sys buffer_size es (sender_of sys w c))))
  round buf State.end_of_file es c p n (i, b, (w, e, q)) =
      rw (q, e)
        (subst
          (λ n.
            ChildComes (enter sys buffer_size State.end_of_file (sender_of sys w c)) es
              (of_patience sys c (end_of_file sys n es (sender_of sys w c))))
          (sym b)
          (of_patience-Comes Place.polls_eof (λ w'. (refl, refl)) c _ es _ b
            (end_of_file-Lands sys buffer_size es (sender_of sys w c))
            (end_of_file-EndsIn sys buffer_size es (sender_of sys w c))))
  round buf State.done es c p n a = absurd (cc)

  -- With the rounds that are left behind START and FILENAME.
  process_client-rounds :
      (buf : List ℕ) (es : List Event) (c : Child) (w : WindowArray) (n : ℕ)
      → filename sys buf fresh_child ≡ ok (State.window_open, c)
      → c.buf_size ≡ buffer_size
      → open_window sys c ≡ some w
      → ChildComes
          (Place.tests_open (sender_of sys w c))
          es
          (machine is_done (switch sys buf) (suc (suc (suc n))) State.start es fresh_child)
  unfolding machine switch
  process_client-rounds buf es c w n e b o = rw e (
      then_loop-Comes (serve sys buffer_size) (answer sys buffer_size) polls_server StandsAt RestsAt
        BreaksAt (machine is_done (switch sys buf) n) (Place.tests_open (sender_of sys w c)) es
        (switch sys buf State.window_open es c)
        (machine-Comes (serve sys buffer_size) (answer sys buffer_size) polls_server StandsAt
          RestsAt BreaksAt is_done (switch sys buf) (round buf) n)
        (opened-Comes c w es b o buf))

  pub process_client-Comes :
      (buf : List ℕ) (es : List Event) (c : Child) (w : WindowArray)
      → filename sys buf fresh_child ≡ ok (State.window_open, c)
      → c.buf_size ≡ buffer_size
      → open_window sys c ≡ some w
      → ChildComes (Place.tests_open (sender_of sys w c)) es (process_client sys buf es)
  unfolding process_client
  process_client-Comes buf es c w e b o =
      subst
        (λ n.
          ChildComes (Place.tests_open (sender_of sys w c)) es
            (machine is_done (switch sys buf) n State.start es fresh_child))
        (omega arith) (process_client-rounds buf es c w (6 * length es + 3) e b o)
