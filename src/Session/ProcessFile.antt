-- ===== src/Session/ProcessFile.antt =====
-- processFile of project_3/rcopy.c from IN_ORDER on, as steps of a transfer.
use remotecopy.Base.{
  ℕ, suc, ◌+◌, ◌*◌, ◌≡◌, refl, sym, subst, true, false, some, List, [], zero, length, arith,
}
use remotecopy.Base.Control.{
  Event, Fault, Turn, again, leave, crash, Outcome, returned, waiting, faulted, TurnIs,
}
use remotecopy.Base.Machine.{machine}
use remotecopy.Window.{WindowArray}
use remotecopy.Rcopy.State.{State, System, Receiver}
use remotecopy.Rcopy.Transfer.{flush, flush_again, flush_rounds, flush_turn}
use remotecopy.Rcopy.Process.{
  Arguments, Client, is_done, switch, filename, file_okay, process_file, fresh_client, receiver_of,
  of_receiver, of_flush, open_window,
}
use remotecopy.Session.{Site, advance_client, listen, settle}
use remotecopy.Session.Loops.{Steps}
use remotecopy.Session.Rounds.{Comes, then_loop-Comes, machine-Comes}
use remotecopy.Session.Refine.{polls_client, ClientLands, in_order-Lands, buffering-Lands}
use remotecopy.Session.States.{EndsIn, LeftFor}
use remotecopy.Session.States.Client.{OfClient, in_order-EndsIn, buffering-EndsIn, flush-LeftFor}

module _ (sys : System) (args : Arguments) where
  -- processFile between two rounds of its loop stands in its state, with what its variables hold.
  abbrev pub StandsAt : State → Client → Site → Type 0
  StandsAt st c p =
      OfClient st
      × ((w : WindowArray) × (c.window ≡ some w) × (p ≡ Site.stands st (receiver_of sys args w c)))

  -- processFile waits in IN_ORDER or BUFFERING and has heard all events, with what its variables
  -- hold.
  abbrev pub RestsAt : Client → List Event → Site → Type 0
  RestsAt c left p =
      (st : State) × OfClient st
      × (left ≡ [])
      × (polls_client p ≡ true)
      × ((w : WindowArray) × (c.window ≡ some w) × (p ≡ Site.stands st (receiver_of sys args w c)))

  abbrev pub BreaksAt : Fault → Site → Type 0
  BreaksAt f p = (r : Receiver) × (p ≡ Site.breaks f r)

  -- How a run of processFile ends, in steps from `p`.
  abbrev pub ClientComes : Site → List Event → Outcome Client State → Type 0
  ClientComes =
      Comes (advance_client sys args.buffer_size) (listen sys args.buffer_size) polls_client
        StandsAt RestsAt BreaksAt

  of_receiver-Comes :
      (c : Client) (here : State) (r : Receiver) (es : List Event) (o : Outcome Receiver State)
      → OfClient here
      → ((r' : Receiver) → polls_client (Site.stands here r') ≡ true)
      → ClientLands sys args.buffer_size here r es o
      → EndsIn OfClient o
      → ClientComes (Site.stands here r) es (of_receiver sys args c o)
  of_receiver-Comes c here r es (returned st left r') n m h i =
      (Site.stands st r', (i, (r'.window, refl, refl)), h)
  of_receiver-Comes c here r es (waiting r') n m h i =
      (Site.stands here r', [], (here, n, refl, m r', (r'.window, refl, refl)), h)
  of_receiver-Comes c here r es (faulted f) n m (r', left, h) i =
      (Site.breaks f r', left, (r', refl), h)

  -- flush is left, or breaks off.
  abbrev Ended : Turn Receiver State → Type 0
  Ended = TurnIs (λ r. ⊥) (λ st r. Unit {0}) (λ f. Unit {0})

  again-Ended :
      (k : Receiver → Turn Receiver State) (t : Turn Receiver State)
      → ((r : Receiver) → Ended (k r))
      → Ended (flush_again sys args.buffer_size k t)
  again-Ended k (again r) h = h r
  again-Ended k (leave st r) h = tt
  again-Ended k (crash f) h = tt

  flush_rounds-Ended : (n : ℕ) (r : Receiver) → Ended (flush_rounds sys args.buffer_size n r)
  unfolding flush_rounds
  flush_rounds-Ended zero r = tt
  flush_rounds-Ended (suc n) r =
      again-Ended _ (flush_turn sys args.buffer_size r) (flush_rounds-Ended n)

  flush-Ended : (r : Receiver) → Ended (flush sys args.buffer_size r)
  unfolding flush
  flush-Ended r = flush_rounds-Ended (suc r.window.window_size) r

  -- flush is one step.
  flushes :
      (r : Receiver) (es : List Event) (q : Site) (t : Turn Receiver State)
      → flush sys args.buffer_size r ≡ t
      → Steps
          (advance_client sys args.buffer_size)
          (listen sys args.buffer_size)
          polls_client
          q
          es
          (settle sys args.buffer_size State.flush r t)
          es
      → Steps
          (advance_client sys args.buffer_size)
          (listen sys args.buffer_size)
          polls_client
          q
          es
          (Site.stands State.flush r)
          es
  unfolding advance_client
  flushes r es q t e h = Steps.goes_on (Site.stands State.flush r) es (
      subst
        (λ t'.
          Steps (advance_client sys args.buffer_size) (listen sys args.buffer_size) polls_client q
            es (settle sys args.buffer_size State.flush r t') es)
        (sym e) h)

  of_flush-Comes :
      (c : Client) (r : Receiver) (es : List Event) (t : Turn Receiver State)
      → flush sys args.buffer_size r ≡ t
      → LeftFor OfClient t
      → ClientComes (Site.stands State.flush r) es (of_flush sys args c es t)
  of_flush-Comes c r es (again r') e i = absurd (subst Ended e (flush-Ended r))
  of_flush-Comes c r es (leave st r') e (LeftFor.left i) =
      (Site.stands st r', (i, (r'.window, refl, refl)), flushes r es _ (leave st r') e Steps.stays)
  of_flush-Comes c r es (crash f) e i =
      (Site.breaks f r, es, (r, refl), flushes r es _ (crash f) e Steps.stays)

  -- in_order for the first time, or again.
  opened-Comes :
      (c : Client) (w : WindowArray) (es : List Event)
      → open_window sys args c ≡ some w
      → ClientComes
          (Site.stands State.in_order (receiver_of sys args w c))
          es
          (switch sys args State.in_order es c)
  unfolding switch
  opened-Comes c w es e = rw e (
      of_receiver-Comes c State.in_order (receiver_of sys args w c) es _ tt (λ r'. refl)
        (in_order-Lands sys args.buffer_size es (receiver_of sys args w c))
        (in_order-EndsIn sys args.buffer_size es (receiver_of sys args w c)))

  round :
      (st : State) (es : List Event) (c : Client) (p : Site)
      → is_done st ≡ false
      → StandsAt st c p
      → ClientComes p es (switch sys args st es c)
  unfolding switch
  round State.start es c p n (i, (w, e, q)) = absurd i
  round State.filename es c p n (i, (w, e, q)) = absurd i
  round State.file_okay es c p n (i, (w, e, q)) = absurd i
  round State.in_order es c p n (i, (w, e, q)) =
      subst (λ p'. ClientComes p' es (switch sys args State.in_order es c)) (sym q)
        (opened-Comes c w es (rw e refl))
  round State.buffering es c p n (i, (w, e, q)) =
      rw (q, e)
        (of_receiver-Comes c State.buffering (receiver_of sys args w c) es _ tt (λ r'. refl)
          (buffering-Lands sys args.buffer_size es (receiver_of sys args w c))
          (buffering-EndsIn sys args.buffer_size es (receiver_of sys args w c)))
  round State.flush es c p n (i, (w, e, q)) =
      rw (q, e)
        (of_flush-Comes c (receiver_of sys args w c) es _ refl
          (flush-LeftFor sys args.buffer_size (receiver_of sys args w c)))
  round State.done es c p n a = absurd (cc)

  -- With the rounds that are left behind START, FILENAME and FILE_OKAY.
  process_file-rounds :
      (es left : List Event) (c : Client) (w : WindowArray) (n : ℕ)
      → filename sys args es fresh_client ≡ returned State.file_okay left c
      → sys.open_output ≡ true
      → open_window sys args c ≡ some w
      → ClientComes
          (Site.stands State.in_order (receiver_of sys args w c))
          left
          (machine is_done (switch sys args) (suc (suc (suc (suc n)))) State.start es fresh_client)
  unfolding machine switch file_okay
  process_file-rounds es left c w n e b o =
      simp (e, b)
        (then_loop-Comes (advance_client sys args.buffer_size) (listen sys args.buffer_size)
          polls_client StandsAt RestsAt BreaksAt (machine is_done (switch sys args) n)
          (Site.stands State.in_order (receiver_of sys args w c)) left
          (switch sys args State.in_order left c)
          (machine-Comes (advance_client sys args.buffer_size) (listen sys args.buffer_size)
            polls_client StandsAt RestsAt BreaksAt is_done (switch sys args) round n)
          (opened-Comes c w left o))

  pub process_file-Comes :
      (es left : List Event) (c : Client) (w : WindowArray)
      → filename sys args es fresh_client ≡ returned State.file_okay left c
      → sys.open_output ≡ true
      → open_window sys args c ≡ some w
      → ClientComes
          (Site.stands State.in_order (receiver_of sys args w c))
          left
          (process_file sys args es)
  unfolding process_file
  process_file-Comes es left c w e b o =
      subst
        (λ n.
          ClientComes (Site.stands State.in_order (receiver_of sys args w c)) left
            (machine is_done (switch sys args) n State.start es fresh_client))
        (omega arith) (process_file-rounds es left c w (6 * length es + 2) e b o)
