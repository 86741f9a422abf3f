-- ===== src/Session.antt =====
-- One transfer: a child of project_3/server.c that sends, project_3/rcopy.c that receives, and the
-- network between them. The two programs take their steps in any order. The network may lose, repeat,
-- delay and reorder what either of them has sent, and may corrupt it, as `sendtoErr` does.
pub mod Receiving
pub mod Sending
pub mod Hearing
pub mod Together
pub mod Loops
pub mod Refine
pub mod States
pub mod Rounds
pub mod ProcessClient
pub mod ProcessFile
pub mod Copy
pub mod Delivery
pub mod Complete
pub mod Begin
pub mod Trail
pub mod Heard
pub mod Whole
pub mod Answered
mod Tests
use mathlib.Core.List.{Memᴰ}
use remotecopy.Base.{ℕ, ◌≡◌, ◌≢◌, ◌⊎◌, none, List, take, get_or}
use remotecopy.Base.Control.{
  Event, timeout, arrives, Turn, again, leave, crash, Fault, Result, ok, fault,
}
use remotecopy.Protocol.{recv_flag_location, filename_response_flag}
use remotecopy.Pdu.{process_pdu}
use remotecopy.Server.State.{Sender, Patience}
use remotecopy.Server.State as Server
use remotecopy.Server.Send.{send_eof}
use remotecopy.Server.Transfer.{
  open_turn, open_answer, closed_turn, closed_answer, eof_turn, eof_answer, recv_buffer_length,
}
use remotecopy.Rcopy.State.{Receiver}
use remotecopy.Rcopy.State as Rcopy
use remotecopy.Rcopy.Transfer.{room, in_order_answer, buffering_answer, flush}

-- Where the child stands: at the test or at the poll of one of its three loops, behind them, or at a
-- fault, with what it held before the turn.
pub data Place : Type 0 where
  tests_open polls_open : Sender → Place
  tests_closed polls_closed tests_eof polls_eof : Patience → Place
  stops : Server.State → Sender → Place
  faults : Fault → Sender → Place

-- Where the receiver stands: in a state, or at a fault, with what it held before the turn.
pub data Site : Type 0 where
  stands : Rcopy.State → Receiver → Site
  breaks : Fault → Receiver → Site

-- The child's sender, wherever it stands.
abbrev pub sender_at : Place → Sender
sender_at (Place.tests_open s) = s
sender_at (Place.polls_open s) = s
sender_at (Place.tests_closed w) = w.sender
sender_at (Place.polls_closed w) = w.sender
sender_at (Place.tests_eof w) = w.sender
sender_at (Place.polls_eof w) = w.sender
sender_at (Place.stops st s) = s
sender_at (Place.faults f s) = s

abbrev pub receiver_at : Site → Receiver
receiver_at (Site.stands st r) = r
receiver_at (Site.breaks f r) = r

module _ (sys : Server.System) (buffer_size : ℕ) where
  -- end_of_file sends its packet before its loop.
  abbrev pub enter_eof : Sender → Result Sender → Place
  enter_eof s (ok s') = Place.tests_eof (record { sender = s'; count = 0 })
  enter_eof s (fault f) = Place.faults f s

  -- The next state of the child.
  abbrev pub enter : Server.State → Sender → Place
  enter Server.State.window_open s = Place.tests_open s
  enter Server.State.window_closed s = Place.tests_closed (record { sender = s; count = 0 })
  enter Server.State.end_of_file s = enter_eof s (send_eof sys s)
  enter st s = Place.stops st s

  -- What follows a part of a loop's body: `held` is the sender of the loop's state.
  abbrev pub after : {W : Type 0} → (W → Sender) → (W → Place) → W → Turn W Server.State → Place
  after held k w (again w') = k w'
  after held k w (leave st w') = enter st (held w')
  after held k w (crash f) = Place.faults f (held w)

  abbrev pub after_open : (Sender → Place) → Sender → Turn Sender Server.State → Place
  after_open = after (λ s. s)

  abbrev pub after_wait : (Patience → Place) → Patience → Turn Patience Server.State → Place
  after_wait = after (λ w. w.sender)

  -- A step of the child down to its next poll.
  unfoldable pub serve : Place → Place
  serve (Place.tests_open s) = after_open Place.polls_open s (open_turn sys buffer_size s)
  serve (Place.tests_closed w) = after_wait Place.polls_closed w (closed_turn sys buffer_size w)
  serve (Place.tests_eof w) = after_wait Place.polls_eof w (eof_turn sys buffer_size w)
  serve p = p

  -- A poll of the child, and what follows it.
  unfoldable pub answer : Event → Place → Place
  answer e (Place.polls_open s) = after_open Place.tests_open s (open_answer sys buffer_size e s)
  answer e (Place.polls_closed w) =
      after_wait Place.tests_closed w (closed_answer sys buffer_size e w)
  answer e (Place.polls_eof w) = after_wait Place.tests_eof w (eof_answer sys buffer_size e w)
  answer e p = p

module _ (sys : Rcopy.System) (buffer_size : ℕ) where
  abbrev pub settle : Rcopy.State → Receiver → Turn Receiver Rcopy.State → Site
  settle st r (again r') = Site.stands st r'
  settle st r (leave st' r') = Site.stands st' r'
  settle st r (crash f) = Site.breaks f r

  -- flush polls nothing.
  unfoldable pub advance_client : Site → Site
  advance_client (Site.stands Rcopy.State.flush r) =
      settle Rcopy.State.flush r (flush sys buffer_size r)
  advance_client c = c

  -- A poll of the receiver, and what follows it.
  unfoldable pub listen : Event → Site → Site
  listen e (Site.stands Rcopy.State.in_order r) =
      settle Rcopy.State.in_order r (in_order_answer sys buffer_size e r)
  listen e (Site.stands Rcopy.State.buffering r) =
      settle Rcopy.State.buffering r (buffering_answer sys buffer_size e r)
  listen e c = c

-- What the network may bring to a poll that reads `space` bytes: nothing, something that fails its
-- checksum, or something that the other side has sent. The response to the file name, which opened
-- the transfer, does not come again.
abbrev pub Carried : (List ℕ → ℕ) → ℕ → List (List ℕ) → Event → Type 0
Carried in_cksum space sent timeout = Unit {0}
Carried in_cksum space sent (arrives d) =
    (process_pdu in_cksum (take space d) ≡ none)
    ⊎ (Memᴰ d sent × (get_or d recv_flag_location 0 ≢ filename_response_flag))

module _ (server : Server.System) (client : Rcopy.System) (buffer_size : ℕ) where
  -- What the two programs come to from where they stand.
  pub data Runs (p : Place) (c : Site) : Place → Site → Type 0 where
    begins : Runs p c p c
    serves : (q : Place) (d : Site) → Runs p c q d → Runs p c (serve server buffer_size q) d
    advances :
        (q : Place) (d : Site) → Runs p c q d → Runs p c q (advance_client client buffer_size d)
    answers :
        (e : Event) (q : Place) (d : Site)
        → Runs p c q d
        → Carried server.in_cksum recv_buffer_length (receiver_at d).sent e
        → Runs p c (answer server buffer_size e q) d
    listens :
        (e : Event) (q : Place) (d : Site)
        → Runs p c q d
        → Carried client.in_cksum (room client buffer_size) (sender_at q).sent e
        → Runs p c q (listen client buffer_size e d)
