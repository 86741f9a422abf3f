-- ===== src/Server/Silence.antt =====
-- window_closed (project_3/server.c) when nothing comes any more.
use remotecopy.Base.{
  ℕ, zero, suc, ◌+◌, ◌≤◌, ◌<◌, ◌≡◌, refl, ap, ◌∙◌, false, some, Option, List, ◌∷◌, ◌++◌, get_elem?,
  replicate, length, arith, lt→ltb,
}
use remotecopy.Base.Control.{
  Event, timeout, again, leave, returned, poll_loop, poll_loop-leave, poll_loop-again,
}
use remotecopy.Protocol.{resent_timeout_data_packet_flag}
use remotecopy.Pdu.{create_pdu}
use remotecopy.Window.{Packet, check_window_open}
use remotecopy.Server.State.{State, System, Sender, Patience}
use remotecopy.Server.Send.{safe_sendto}
use remotecopy.Server.Transfer.{window_closed, closed_turn, closed_answer, max_tries}
use remotecopy.Server.Invariant.{Transmission}
use remotecopy.Server.Serving.{IsServing, sendto-IsServing, resend-held}

replicate-cons :
    (n : ℕ) (d : List ℕ) (ds : List (List ℕ)) → replicate n d ++ d ∷ ds ≡ d ∷ (replicate n d ++ ds)
replicate-cons zero d ds = refl
replicate-cons (suc n) d ds = ap (λ t. d ∷ t) (replicate-cons n d ds)

module _ (sys : System) (buffer_size : ℕ) (chunks : List (List ℕ)) (tail : Option Packet)
    (c : List ℕ) (short : length c ≤ buffer_size) where
  -- The sender after `n` copies of a datagram.
  abbrev pub repeated : ℕ → List ℕ → Sender → Sender
  repeated n d s = record s { sent = replicate n d ++ s.sent }

  closed_turn-again :
      (w : Patience)
      → check_window_open w.sender.window ≡ false
      → w.count < max_tries
      → closed_turn sys buffer_size w ≡ again w
  unfolding closed_turn
  closed_turn-again w e h = rw (e, lt→ltb w.count max_tries h)

  closed_turn-leave :
      (w : Patience)
      → check_window_open w.sender.window ≡ false
      → w.count ≡ max_tries
      → closed_turn sys buffer_size w ≡ leave State.done w
  unfolding closed_turn
  closed_turn-leave w e h = ground arith

  abbrev lowest : Sender → List ℕ
  lowest s = create_pdu sys.in_cksum s.window.lower resent_timeout_data_packet_flag c

  closed_answer-timeout :
      (w : Patience)
      → IsServing sys chunks tail w.sender
      → w.sender.window.lower < w.sender.window.current
      → get_elem? chunks w.sender.window.lower ≡ some c
      → closed_answer sys buffer_size timeout w
        ≡ again (record { sender = safe_sendto (lowest w.sender) w.sender; count = w.count + 1 })
  unfolding closed_answer
  closed_answer-timeout w v h e = rw (
      resend-held sys chunks tail w.sender w.sender.window.lower resent_timeout_data_packet_flag
        buffer_size c v (omega arith) h e short)

  silent :
      (n count : ℕ) (es : List Event) (s : Sender)
      → IsServing sys chunks tail s
      → check_window_open s.window ≡ false
      → s.window.lower < s.window.current
      → get_elem? chunks s.window.lower ≡ some c
      → count + n ≡ max_tries
      → poll_loop
          (closed_turn sys buffer_size)
          (closed_answer sys buffer_size)
          (replicate n timeout ++ es)
          (record { sender = s; count = count })
        ≡ returned State.done es (record { sender = repeated n (lowest s) s; count = max_tries })
  silent zero count es s v shut h e q =
      poll_loop-leave _ _ es _ _ _
        (closed_turn-leave (record { sender = s; count = count }) shut (omega arith))
      ∙ ap (λ k. returned State.done es (record { sender = s; count = k })) (omega arith)
  silent (suc n) count es s v shut h e q =
      poll_loop-again _ _ timeout _ _ _ _
        (closed_turn-again (record { sender = s; count = count }) shut (omega arith))
        (closed_answer-timeout (record { sender = s; count = count }) v h e)
      ∙ silent n (count + 1) es (safe_sendto (lowest s) s)
          (sendto-IsServing sys chunks tail s (lowest s) v (
            Transmission.chunk s.window.lower resent_timeout_data_packet_flag c h (λ z. omega arith)
              e refl))
          shut h e (omega arith)
      ∙ ap
          (λ ds.
            returned State.done es (record { sender = record s { sent = ds }; count = max_tries }))
          (replicate-cons n (lowest s) s.sent)

  -- window_closed with a closed window and ten timeouts in a row sends the lowest packet of the
  -- window ten times and gives up for DONE, with the window as it was and the later events left.
  -- The sender satisfies its invariant, a packet is in the window, and its chunk fits the buffer
  -- size.
  pub window_closed-silence :
      (s : Sender) (es : List Event)
      → IsServing sys chunks tail s
      → check_window_open s.window ≡ false
      → s.window.lower < s.window.current
      → get_elem? chunks s.window.lower ≡ some c
      → window_closed sys buffer_size (replicate max_tries timeout ++ es) s
        ≡ returned State.done es
            (record { sender = repeated max_tries (lowest s) s; count = max_tries })
  unfolding window_closed
  window_closed-silence s es v shut h e = silent max_tries 0 es s v shut h e (omega arith)
