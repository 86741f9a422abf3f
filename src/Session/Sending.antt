-- ===== src/Session/Sending.antt =====
-- A step of the child of project_3/server.c in a transfer keeps the sender's invariant.
use remotecopy.Base.{ℕ, ◌≤◌, sym, subst, Option, none, some, List, length, arith, take}
use remotecopy.Base.Control.{Event, timeout, arrives, Turn, again, leave, crash, TurnIs, Fault}
use remotecopy.Pdu.{process_pdu}
use remotecopy.Window.{Packet}
use remotecopy.Server.State.{System, State, Sender, Patience}
use remotecopy.Server.Transfer.{
  open_turn, open_answer, closed_turn, closed_answer, eof_turn, eof_answer, recv_buffer_length,
}
use remotecopy.Server.Serving.{IsServing, eof_packet}
use remotecopy.Server.Sending.{send_eof_lem, after_eof}
use remotecopy.Server.Turns.{IsReading, MayHear, IsWithin}
use remotecopy.Server.Handlers.{InState, open_turn-InState, open_response-Is}
use remotecopy.Server.Waiting.{
  WaitState, IsClosed, IsEnding, AtTest, closed_turn-Is, closed_timeout-Is, closed_response-Is,
  eof_turn-Is, eof_timeout-Is, eof_response-Is,
}
use remotecopy.Session.{Place, sender_at, serve, answer, enter, enter_eof, after}

-- A fault is allowed: a SREJ of a packet that is no longer in the window may cause one.
abbrev pub Any : Fault → Type 0
Any f = Unit {0}

module _ (sys : System) (buffer_size : ℕ) (chunks : List (List ℕ))
    (reading : IsReading sys buffer_size chunks) (width : ℕ) where
  abbrev pub Within : ℕ → ℕ → Sender → Type 0
  Within base bound s = (tail : Option Packet) × IsWithin sys chunks base bound width tail s

  -- The condition of each place.
  abbrev pub InPlace : ℕ → ℕ → Place → Type 0
  InPlace base bound (Place.tests_open s) = IsWithin sys chunks base bound width none s
  InPlace base bound (Place.polls_open s) = IsWithin sys chunks base bound width none s
  InPlace base bound (Place.tests_closed w) =
      AtTest sys buffer_size chunks reading base bound width Any w
  InPlace base bound (Place.polls_closed w) =
      IsClosed sys buffer_size chunks reading base bound width Any w
  InPlace base bound (Place.tests_eof w) =
      IsEnding sys buffer_size chunks reading base bound width Any w
  InPlace base bound (Place.polls_eof w) =
      IsEnding sys buffer_size chunks reading base bound width Any w
  InPlace base bound (Place.stops st s) = Within base bound s
  InPlace base bound (Place.faults f s) = Within base bound s

  pub InPlace-Within :
      (base bound : ℕ) (p : Place) → InPlace base bound p → Within base bound (sender_at p)
  InPlace-Within base bound (Place.tests_open s) v = (none, v)
  InPlace-Within base bound (Place.polls_open s) v = (none, v)
  InPlace-Within base bound (Place.tests_closed w) v = (none, v)
  InPlace-Within base bound (Place.polls_closed w) v = (none, v.0)
  InPlace-Within base bound (Place.tests_eof w) v = (some (eof_packet sys (length chunks)), v.0)
  InPlace-Within base bound (Place.polls_eof w) v = (some (eof_packet sys (length chunks)), v.0)
  InPlace-Within base bound (Place.stops st s) v = v
  InPlace-Within base bound (Place.faults f s) v = v

  -- The condition from where the child stands, once the receiver has accepted more.
  module _ (base bound bound' : ℕ) (le : bound ≤ bound') where
    move :
        (tail : Option Packet) (s : Sender)
        → IsWithin sys chunks base bound width tail s
        → IsWithin sys chunks s.window.current bound' width tail s
    move tail s v = record {
      serving = v.serving;
      from = omega arith;
      upto = omega (arith, v.upto);
      wide = v.wide;
    }

    pub InPlace-move :
        (p : Place) → InPlace base bound p → InPlace (sender_at p).window.current bound' p
    InPlace-move (Place.tests_open s) v = move none s v
    InPlace-move (Place.polls_open s) v = move none s v
    InPlace-move (Place.tests_closed w) v = move none w.sender v
    InPlace-move (Place.polls_closed w) v = (move none w.sender v.0, v.1)
    InPlace-move (Place.tests_eof w) v =
        (move (some (eof_packet sys (length chunks))) w.sender v.0, v.1)
    InPlace-move (Place.polls_eof w) v =
        (move (some (eof_packet sys (length chunks))) w.sender v.0, v.1)
    InPlace-move (Place.stops st s) v = (v.0, move v.0 s v.1)
    InPlace-move (Place.faults f s) v = (v.0, move v.0 s v.1)

  module _ (base bound : ℕ) where
    abbrev In : State → Sender → Type 0
    In = InState sys buffer_size chunks reading base bound width Any

    abbrev Stands : Place → Type 0
    Stands = InPlace base bound

    enter-InPlace : (st : State) (s : Sender) → In st s → Stands (enter sys buffer_size st s)
    enter-InPlace State.window_open s v = v
    enter-InPlace State.window_closed s v = v
    enter-InPlace State.end_of_file s (v, room, all) =
        let (e, serving) = send_eof_lem sys chunks s v.serving room all in
        subst (λ r. Stands (enter_eof sys buffer_size s r)) (sym e)
          (
            record {
              serving =
                  subst
                    (λ n. IsServing sys chunks (some (eof_packet sys n)) (after_eof sys chunks s))
                    all serving;
              from = v.from;
              upto = v.upto;
              wide = v.wide;
            },
            all,
          )
    enter-InPlace State.done s v = v
    enter-InPlace State.start s v = absurd v
    enter-InPlace State.filename s v = absurd v

    after-InPlace :
        {W : Type 0} (held : W → Sender) (M : W → Type 0) (k : W → Place) (w : W) (t : Turn W State)
        → Within base bound (held w)
        → ((w' : W) → M w' → Stands (k w'))
        → TurnIs M (λ st w'. In st (held w')) Any t
        → Stands (after sys buffer_size held k w t)
    after-InPlace held M k w (again w') v go h = go w' h
    after-InPlace held M k w (leave st w') v go h = enter-InPlace st (held w') h
    after-InPlace held M k w (crash f) v go h = v

    module _ (fits : buffer_size ≤ 1400) (pos : 1 ≤ buffer_size) where
      pub serve-InPlace : (p : Place) → Stands p → Stands (serve sys buffer_size p)
      unfolding serve
      serve-InPlace (Place.tests_open s) v =
          after-InPlace (λ s'. s') (In State.window_open) Place.polls_open s
            (open_turn sys buffer_size s) (none, v) (λ s' h. h)
            (open_turn-InState sys buffer_size chunks reading base bound width Any s fits v)
      serve-InPlace (Place.tests_closed w) v =
          after-InPlace (λ w'. w'.sender)
            (IsClosed sys buffer_size chunks reading base bound width Any) Place.polls_closed w
            (closed_turn sys buffer_size w) (none, v) (λ w' h. h)
            (closed_turn-Is sys buffer_size chunks reading base bound width Any w v)
      serve-InPlace (Place.tests_eof w) v =
          after-InPlace (λ w'. w'.sender)
            (IsEnding sys buffer_size chunks reading base bound width Any) Place.polls_eof w
            (eof_turn sys buffer_size w) (some (eof_packet sys (length chunks)), v.0) (λ w' h. h)
            (eof_turn-Is sys buffer_size chunks reading base bound width Any w v)
      serve-InPlace (Place.polls_open s) v = v
      serve-InPlace (Place.polls_closed w) v = v
      serve-InPlace (Place.polls_eof w) v = v
      serve-InPlace (Place.stops st s) v = v
      serve-InPlace (Place.faults f s) v = v

      -- What a poll of the child brings.
      abbrev pub Heeds : Sender → Event → Type 0
      Heeds s timeout = Unit {0}
      Heeds s (arrives d) =
          MayHear Any bound s (process_pdu sys.in_cksum (take recv_buffer_length d))

      open_answer-Is :
          (e : Event) (s : Sender)
          → In State.window_open s
          → Heeds s e
          → TurnIs (In State.window_open) In Any (open_answer sys buffer_size e s)
      unfolding open_answer
      open_answer-Is timeout s v h = v
      open_answer-Is (arrives d) s v h =
          open_response-Is sys buffer_size chunks reading base bound width Any
            (process_pdu sys.in_cksum (take recv_buffer_length d)) s v h

      closed_answer-Is :
          (e : Event) (w : Patience)
          → IsClosed sys buffer_size chunks reading base bound width Any w
          → Heeds w.sender e
          → TurnIs
              (AtTest sys buffer_size chunks reading base bound width Any)
              (WaitState sys buffer_size chunks reading base bound width Any)
              Any
              (closed_answer sys buffer_size e w)
      unfolding closed_answer
      closed_answer-Is timeout w v h =
          closed_timeout-Is sys buffer_size chunks reading base bound width Any w v
      closed_answer-Is (arrives d) w v h =
          closed_response-Is sys buffer_size chunks reading base bound width Any
            (process_pdu sys.in_cksum (take recv_buffer_length d)) w v h

      eof_answer-Is :
          (e : Event) (w : Patience)
          → IsEnding sys buffer_size chunks reading base bound width Any w
          → Heeds w.sender e
          → TurnIs
              (IsEnding sys buffer_size chunks reading base bound width Any)
              (WaitState sys buffer_size chunks reading base bound width Any)
              Any
              (eof_answer sys buffer_size e w)
      unfolding eof_answer
      eof_answer-Is timeout w v h =
          eof_timeout-Is sys buffer_size chunks reading base bound width Any w pos v
      eof_answer-Is (arrives d) w v h =
          eof_response-Is sys buffer_size chunks reading base bound width Any
            (process_pdu sys.in_cksum (take recv_buffer_length d)) w v h

      pub answer-InPlace :
          (e : Event) (p : Place)
          → Stands p
          → Heeds (sender_at p) e
          → Stands (answer sys buffer_size e p)
      unfolding answer
      answer-InPlace e (Place.polls_open s) v h =
          after-InPlace (λ s'. s') (In State.window_open) Place.tests_open s
            (open_answer sys buffer_size e s) (none, v) (λ s' k. k) (open_answer-Is e s v h)
      answer-InPlace e (Place.polls_closed w) v h =
          after-InPlace (λ w'. w'.sender)
            (AtTest sys buffer_size chunks reading base bound width Any) Place.tests_closed w
            (closed_answer sys buffer_size e w) (none, v.0) (λ w' k. k) (closed_answer-Is e w v h)
      answer-InPlace e (Place.polls_eof w) v h =
          after-InPlace (λ w'. w'.sender)
            (IsEnding sys buffer_size chunks reading base bound width Any) Place.tests_eof w
            (eof_answer sys buffer_size e w) (some (eof_packet sys (length chunks)), v.0)
            (λ w' k. k) (eof_answer-Is e w v h)
      answer-InPlace e (Place.tests_open s) v h = v
      answer-InPlace e (Place.tests_closed w) v h = v
      answer-InPlace e (Place.tests_eof w) v h = v
      answer-InPlace e (Place.stops st s) v h = v
      answer-InPlace e (Place.faults f s) v h = v
