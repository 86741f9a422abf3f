-- ===== src/Session/Refine.antt =====
-- The functions of project_3/server.c and project_3/rcopy.c that wait for datagrams, as steps of a
-- transfer.
use remotecopy.Base.{ℕ, ◌≡◌, Bool, true, false, refl, List}
use remotecopy.Base.Control.{
  Event, Turn, again, leave, crash, Outcome, faulted, poll_loop, ok, fault, Result,
}
use remotecopy.Server.State as Server
use remotecopy.Server.State.{Sender, Patience}
use remotecopy.Server.Send.{send_eof}
use remotecopy.Server.Transfer.{
  open_turn, open_answer, window_open, closed_turn, closed_answer, window_closed, eof_turn,
  eof_answer, end_of_file,
}
use remotecopy.Rcopy.State as Rcopy
use remotecopy.Rcopy.State.{Receiver}
use remotecopy.Rcopy.Transfer.{in_order_answer, in_order, buffering_answer, buffering}
use remotecopy.Session.{
  Place, Site, serve, answer, enter, enter_eof, after, listen, advance_client, settle,
}
use remotecopy.Session.Loops.{Steps, Lands, poll_loop-Lands}
use remotecopy.Session.Loops as Loops

-- The child polls at these places, and the receiver in these states.
abbrev pub polls_server : Place → Bool
polls_server (Place.polls_open s) = true
polls_server (Place.polls_closed w) = true
polls_server (Place.polls_eof w) = true
polls_server _ = false

abbrev pub polls_client : Site → Bool
polls_client (Site.stands Rcopy.State.in_order r) = true
polls_client (Site.stands Rcopy.State.buffering r) = true
polls_client _ = false

module _ (sys : Server.System) (buffer_size : ℕ) where
  -- How a loop of the child ends, in the child's steps; `held` is the sender of the loop's state.
  abbrev pub ServerLands :
      {W : Type 0}
      → (W → Sender)
      → (W → Place)
      → Place
      → List Event
      → Outcome W Server.State
      → Type 0
  ServerLands held =
      Lands (serve sys buffer_size) (answer sys buffer_size) polls_server
        (λ st w. enter sys buffer_size st (held w)) (λ f w. Place.faults f (held w))

  after_same :
      {W : Type 0} (held : W → Sender) (k : W → Place) (w : W) (t : Turn W Server.State)
      → after sys buffer_size held k w t
        ≡ Loops.after
            (serve sys buffer_size)
            (answer sys buffer_size)
            polls_server
            (λ st w'. enter sys buffer_size st (held w'))
            (λ f w'. Place.faults f (held w'))
            k
            w
            t
  after_same held k w (again w') = refl
  after_same held k w (leave st w') = refl
  after_same held k w (crash f) = refl

  pub window_open-Lands :
      (es : List Event) (s : Sender)
      → ServerLands
          (λ x. x)
          Place.polls_open
          (Place.tests_open s)
          es
          (window_open sys buffer_size es s)
  unfolding window_open serve answer
  window_open-Lands es s =
      poll_loop-Lands (serve sys buffer_size) (answer sys buffer_size) polls_server _ _
        Place.tests_open Place.polls_open (open_turn sys buffer_size) (open_answer sys buffer_size)
        (λ w. after_same (λ x. x) Place.polls_open w (open_turn sys buffer_size w))
        (λ e w. after_same (λ x. x) Place.tests_open w (open_answer sys buffer_size e w))
        (λ w. refl) es s

  pub window_closed-Lands :
      (es : List Event) (s : Sender)
      → ServerLands
          (λ w. w.sender)
          Place.polls_closed
          (enter sys buffer_size Server.State.window_closed s)
          es
          (window_closed sys buffer_size es s)
  unfolding window_closed serve answer
  window_closed-Lands es s =
      poll_loop-Lands (serve sys buffer_size) (answer sys buffer_size) polls_server _ _
        Place.tests_closed Place.polls_closed (closed_turn sys buffer_size)
        (closed_answer sys buffer_size)
        (λ w. after_same (λ x. x.sender) Place.polls_closed w (closed_turn sys buffer_size w))
        (λ e w. after_same (λ x. x.sender) Place.tests_closed w (closed_answer sys buffer_size e w))
        (λ w. refl) es (record { sender = s; count = 0 })

  pub end_of_file-Lands :
      (es : List Event) (s : Sender)
      → ServerLands
          (λ w. w.sender)
          Place.polls_eof
          (enter sys buffer_size Server.State.end_of_file s)
          es
          (end_of_file sys buffer_size es s)
  unfolding end_of_file serve answer
  end_of_file-Lands es s = by_send (send_eof sys s)
    where
      by_send :
          (r : Result Sender)
          → ServerLands
              (λ w. w.sender)
              Place.polls_eof
              (enter_eof sys buffer_size s r)
              es
              (elim r [
                | fault f ↦ faulted f
                | ok s' ↦
                    poll_loop
                      (eof_turn sys buffer_size)
                      (eof_answer sys buffer_size)
                      es
                      (record { sender = s'; count = 0 })
              ])
      by_send (fault f) = (record { sender = s; count = 0 }, es, Steps.stays)
      by_send (ok s') =
          poll_loop-Lands (serve sys buffer_size) (answer sys buffer_size) polls_server _ _
            Place.tests_eof Place.polls_eof (eof_turn sys buffer_size) (eof_answer sys buffer_size)
            (λ w. after_same (λ x. x.sender) Place.polls_eof w (eof_turn sys buffer_size w))
            (λ e w. after_same (λ x. x.sender) Place.tests_eof w (eof_answer sys buffer_size e w))
            (λ w. refl) es (record { sender = s'; count = 0 })

module _ (sys : Rcopy.System) (buffer_size : ℕ) where
  abbrev pub ClientLands :
      Rcopy.State → Receiver → List Event → Outcome Receiver Rcopy.State → Type 0
  ClientLands st r =
      Lands (advance_client sys buffer_size) (listen sys buffer_size) polls_client Site.stands
        Site.breaks (Site.stands st) (Site.stands st r)

  settle_same :
      (st : Rcopy.State) (r : Receiver) (t : Turn Receiver Rcopy.State)
      → settle sys buffer_size st r t
        ≡ Loops.after
            (advance_client sys buffer_size)
            (listen sys buffer_size)
            polls_client
            Site.stands
            Site.breaks
            (Site.stands st)
            r
            t
  settle_same st r (again r') = refl
  settle_same st r (leave st' r') = refl
  settle_same st r (crash f) = refl

  pub in_order-Lands :
      (es : List Event) (r : Receiver)
      → ClientLands Rcopy.State.in_order r es (in_order sys buffer_size es r)
  unfolding in_order advance_client listen
  in_order-Lands es r =
      poll_loop-Lands (advance_client sys buffer_size) (listen sys buffer_size) polls_client
        Site.stands Site.breaks (Site.stands Rcopy.State.in_order)
        (Site.stands Rcopy.State.in_order) again (in_order_answer sys buffer_size) (λ w. refl)
        (λ e w. settle_same Rcopy.State.in_order w (in_order_answer sys buffer_size e w))
        (λ w. refl) es r

  pub buffering-Lands :
      (es : List Event) (r : Receiver)
      → ClientLands Rcopy.State.buffering r es (buffering sys buffer_size es r)
  unfolding buffering advance_client listen
  buffering-Lands es r =
      poll_loop-Lands (advance_client sys buffer_size) (listen sys buffer_size) polls_client
        Site.stands Site.breaks (Site.stands Rcopy.State.buffering)
        (Site.stands Rcopy.State.buffering) again (buffering_answer sys buffer_size) (λ w. refl)
        (λ e w. settle_same Rcopy.State.buffering w (buffering_answer sys buffer_size e w))
        (λ w. refl) es r
