-- ===== src/Server/Waiting.antt =====
-- One turn of window_closed and of end_of_file (project_3/server.c) keeps the sender's invariant.
use native.Mathlib.Decide.{dec_lt}
use remotecopy.Base.{
  ℕ, ◌+◌, ◌≤◌, ◌<◌, ◌≡◌, refl, sym, ap, ◌∙◌, ◌⊎◌, inl, inr, Bool, true, false, Option, none, some,
  List, [], ◌∷◌, get_elem?, get_elem?-lt, length, arith, ltb, ltb→le, ◌==◌, ==-ne, ==_iff,
  Bool-cases, if◌then◌else◌,
}
use remotecopy.Base.Control.{again, leave, TurnIs, ok, Fault}
use remotecopy.Protocol.{
  rr_flag, srej_flag, eof_flag, eof_ack_flag, resent_srej_data_packet_flag,
  resent_timeout_data_packet_flag,
}
use remotecopy.Pdu.{Pdu, create_pdu}
use remotecopy.Window.{Packet, check_window_open}
use remotecopy.Server.State.{State, System, Sender, Patience}
use remotecopy.Server.Send.{resend_data_packet, safe_sendto}
use remotecopy.Server.Transfer.{
  closed_turn, closed_response, resend_lowest, eof_turn, eof_response, max_tries,
}
use remotecopy.Server.Invariant.{Transmission}
use remotecopy.Server.Serving.{sendto-IsServing, resend-held, resend-eof, eof_packet}
use remotecopy.Server.Turns.{IsReading, Heard, MayHear, IsWithin, srej-Is, rr-Is}
use remotecopy.Server.Handlers.{InState, open_iff}

module _ (sys : System) (buffer_size : ℕ) (chunks : List (List ℕ))
    (reading : IsReading sys buffer_size chunks) (base bound width : ℕ) (C : Fault → Type 0) where
  abbrev pub WaitState : State → Patience → Type 0
  WaitState st w = InState sys buffer_size chunks reading base bound width C st w.sender

  -- Waiting for a RR, with a packet in the window.
  abbrev pub IsClosed : Patience → Type 0
  IsClosed w =
      IsWithin sys chunks base bound width none w.sender
      × (w.sender.window.lower < w.sender.window.current)

  -- Waiting for the EOF ACK, with the end of file in the window.
  abbrev pub IsEnding : Patience → Type 0
  IsEnding w =
      IsWithin sys chunks base bound width (some (eof_packet sys (length chunks))) w.sender
      × (w.sender.window.current ≡ length chunks)

  abbrev pub AtTest : Patience → Type 0
  AtTest w = IsWithin sys chunks base bound width none w.sender

  -- The test of the loop of window_closed, from any sender that satisfies the invariant: the poll
  -- is reached only with a packet in the window, and the loop is left for a state whose condition
  -- holds of the sender.
  pub closed_turn-Is :
      (w : Patience) → AtTest w → TurnIs IsClosed WaitState C (closed_turn sys buffer_size w)
  unfolding closed_turn
  closed_turn-Is w v = elim (Bool-cases (check_window_open w.sender.window)) [
    | inl e ↦ rw e (left (w.count == max_tries))
    | inr e ↦ rw e (elim (Bool-cases (ltb w.count max_tries)) [
      | inl q ↦ rw q (v, inside e)
      | inr q ↦ rw q (left (w.count == max_tries))
    ])
  ]
    where
      left : (b : Bool) → WaitState (if b then State.done else State.window_open) w
      left true = (none, v)
      left false = v

      inside :
          check_window_open w.sender.window ≡ false
          → w.sender.window.lower < w.sender.window.current
      inside e = omega (
        arith,
        ltb→le w.sender.window.current (w.sender.window.lower + w.sender.window.window_size) (
            sym (open_iff sys buffer_size chunks reading base bound width C none w.sender v.serving)
            ∙ e),
        v.serving.window.window.positive,
      )

  module _ (P : Patience → Type 0) (tail : Option Packet) where
    -- The lowest packet is sent again.
    resend_lowest-Is :
        (w : Patience) (d : List ℕ)
        → IsWithin sys chunks base bound width tail w.sender
        → Transmission sys.in_cksum chunks
            (w.sender.window.lower + w.sender.window.window_size)
            w.sender.window.lower
            w.sender.window.current
            d
        → resend_data_packet sys w.sender.window.lower resent_timeout_data_packet_flag buffer_size
            w.sender
          ≡ ok (safe_sendto d w.sender)
        → ((s : Sender) (n : ℕ)
            → IsWithin sys chunks base bound width tail s
            → s.window ≡ w.sender.window
            → P (record { sender = s; count = n }))
        → TurnIs P WaitState C (resend_lowest sys buffer_size w)
    unfolding resend_lowest
    resend_lowest-Is w d v t q go = rw q (
        go (safe_sendto d w.sender) (w.count + 1)
          (record {
            serving = sendto-IsServing sys chunks tail w.sender d v.serving t;
            from = v.from;
            upto = v.upto;
            wide = v.wide;
          })
          refl)

    resend_chunk-Is :
        (w : Patience)
        → IsWithin sys chunks base bound width tail w.sender
        → w.sender.window.lower < w.sender.window.current
        → ((s : Sender) (n : ℕ)
            → IsWithin sys chunks base bound width tail s
            → s.window ≡ w.sender.window
            → P (record { sender = s; count = n }))
        → TurnIs P WaitState C (resend_lowest sys buffer_size w)
    resend_chunk-Is w v h go =
        let n = w.sender.window.lower in
        let (c, e) = get_elem?-lt chunks n (omega (arith, v.serving.window.read)) in
        resend_lowest-Is w (create_pdu sys.in_cksum n resent_timeout_data_packet_flag c) v
          (Transmission.chunk n resent_timeout_data_packet_flag c h (λ z. omega arith) e refl)
          (resend-held sys chunks tail w.sender n resent_timeout_data_packet_flag buffer_size c
            v.serving (omega arith) h e (reading.sized n c e))
          go

  -- After a timeout with a packet in the window, window_closed sends a packet again, keeps the
  -- sender's invariant, goes on, and has no fault but those that `C` allows.
  pub closed_timeout-Is :
      (w : Patience) → IsClosed w → TurnIs AtTest WaitState C (resend_lowest sys buffer_size w)
  closed_timeout-Is w (v, h) = resend_chunk-Is AtTest none w v h (λ s n v' e. v')

  -- After a corrupted datagram, or one that a receiver may send (as for open_response-Is),
  -- window_closed with a packet in its window keeps the sender's invariant, in whichever state it
  -- is left, and has no fault but those that `C` allows.
  pub closed_response-Is :
      (o : Option Pdu) (w : Patience)
      → IsClosed w
      → MayHear C bound w.sender o
      → TurnIs AtTest WaitState C (closed_response sys buffer_size o w)
  unfolding closed_response
  closed_response-Is none w (v, _) h = v
  closed_response-Is (some p) w (v, _) (Heard.rr n f e le lim) =
      rw ((==_iff p.recv_flag rr_flag).1 f) (
        rr-Is sys buffer_size chunks reading base bound width C none AtTest WaitState w.sender n
          p.payload (λ s. leave State.window_open (record { sender = s; count = 0 })) v e le lim
          (λ s v' _. v'))
  closed_response-Is (some p) w (v, _) (Heard.srej n f e lt low) =
      rw (==-ne p.recv_flag rr_flag (λ z. omega arith), (==_iff p.recv_flag srej_flag).1 f)
        (srej-Is sys buffer_size chunks reading base bound width C none AtTest WaitState w.sender n
          resent_srej_data_packet_flag p.payload (λ s. again (record { sender = s; count = 0 })) v
          (λ z. omega arith) e lt low (λ s v' _. v'))
  closed_response-Is (some p) w (v, _) (Heard.other f g) =
      rw (==-ne p.recv_flag rr_flag f, ==-ne p.recv_flag srej_flag g) (none, v)

  -- end_of_file down to its poll.
  pub eof_turn-Is :
      (w : Patience) → IsEnding w → TurnIs IsEnding WaitState C (eof_turn sys buffer_size w)
  unfolding eof_turn
  eof_turn-Is w (v, e) = elim (Bool-cases (ltb w.count max_tries)) [
    | inl q ↦ rw q (v, e)
    | inr q ↦ rw q (some (eof_packet sys (length chunks)), v)
  ]

  -- After a timeout, end_of_file sends a packet again, which may be the end of file itself, keeps
  -- the sender's invariant, goes on, and has no fault but those that `C` allows. The buffer size is
  -- not zero, and the end of file stands behind all chunks in the window.
  pub eof_timeout-Is :
      (w : Patience)
      → 1 ≤ buffer_size
      → IsEnding w
      → TurnIs IsEnding WaitState C (resend_lowest sys buffer_size w)
  eof_timeout-Is w pos (v, e) = elim (dec_lt w.sender.window.lower w.sender.window.current) [
    | yes p ↦
        resend_chunk-Is IsEnding (some (eof_packet sys (length chunks))) w v p
          (λ s n v' q. (v', ap (λ x. x.current) q ∙ e))
    | no p ↦ at_end (omega (arith, v.serving.window.lower)) v.serving.window.ends
  ]
    where
      at_end :
          w.sender.window.lower ≡ w.sender.window.current
          → (some (eof_packet sys (length chunks)) ≡ none)
            ⊎ (w.sender.window.current < w.sender.window.lower + w.sender.window.window_size)
          → TurnIs IsEnding WaitState C (resend_lowest sys buffer_size w)
      at_end q (inl z) = absurd (cc)
      at_end q (inr room) =
          resend_lowest-Is IsEnding (some (eof_packet sys (length chunks))) w
            (create_pdu sys.in_cksum w.sender.window.current eof_flag (sys.stack_byte ∷ [])) v
            (Transmission.last sys.stack_byte e (omega (arith, room, e))
              (ap (λ n. create_pdu sys.in_cksum n eof_flag (sys.stack_byte ∷ [])) e))
            (ap (λ n. resend_data_packet sys n resent_timeout_data_packet_flag buffer_size w.sender)
                q
              ∙ resend-eof sys chunks (length chunks) w.sender resent_timeout_data_packet_flag
                  buffer_size v.serving room pos)
            (λ s n v' z. (v', ap (λ x. x.current) z ∙ e))

  -- The datagram that end_of_file sends again: the lowest chunk, or the end of file.
  abbrev pub LowestAgain : Patience → List ℕ → Type 0
  LowestAgain w d =
      ((c : List ℕ) × (w.sender.window.lower < w.sender.window.current)
        × (get_elem? chunks w.sender.window.lower ≡ some c)
        × (d ≡ create_pdu sys.in_cksum w.sender.window.lower resent_timeout_data_packet_flag c))
      ⊎ ((w.sender.window.lower ≡ length chunks)
          × (d ≡ create_pdu sys.in_cksum (length chunks) eof_flag (sys.stack_byte ∷ [])))

  -- After a corrupted datagram, or one that a receiver may send (as for open_response-Is),
  -- end_of_file keeps the sender's invariant with the end of file behind all chunks in the window
  -- while it goes on, is left for a state whose condition holds of the sender, and has no fault but
  -- those that `C` allows.
  pub eof_response-Is :
      (o : Option Pdu) (w : Patience)
      → IsEnding w
      → MayHear C bound w.sender o
      → TurnIs IsEnding WaitState C (eof_response sys buffer_size o w)
  unfolding eof_response
  eof_response-Is none w v h = v
  eof_response-Is (some p) w (v, q) (Heard.rr n f e le lim) =
      rw ((==_iff p.recv_flag rr_flag).1 f) (
        rr-Is sys buffer_size chunks reading base bound width C
          (some (eof_packet sys (length chunks))) IsEnding WaitState w.sender n p.payload
          (λ s. again (record { sender = s; count = 0 })) v e le lim (λ s v' z. (v', z ∙ q)))
  eof_response-Is (some p) w (v, q) (Heard.srej n f e lt low) =
      rw (==-ne p.recv_flag rr_flag (λ z. omega arith), (==_iff p.recv_flag srej_flag).1 f)
        (srej-Is sys buffer_size chunks reading base bound width C
          (some (eof_packet sys (length chunks))) IsEnding WaitState w.sender n
          resent_srej_data_packet_flag p.payload (λ s. again (record { sender = s; count = 0 })) v
          (λ z. omega arith) e lt low (λ s v' z. (v', ap (λ x. x.current) z ∙ q)))
  eof_response-Is (some p) w (v, q) (Heard.other f g) =
      rw (==-ne p.recv_flag rr_flag f, ==-ne p.recv_flag srej_flag g)
        (either (p.recv_flag == eof_ack_flag))
    where
      either :
          (b : Bool)
          → TurnIs IsEnding WaitState C (if b then leave State.done w else leave State.done w)
      either true = (some (eof_packet sys (length chunks)), v)
      either false = (some (eof_packet sys (length chunks)), v)
