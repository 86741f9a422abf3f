-- ===== src/Server/Termination.antt =====
-- process_client (project_3/server.c) ends: for every list of events the model's rounds suffice; and
-- it never reaches clean_up.
use remotecopy.Base.{
  subst, ℕ, suc, ◌+◌, ◌*◌, ◌≤◌, ◌<◌, ◌≡◌, refl, sym, ap, inl, inr, Bool, true, false, not, ◌&&◌,
  Option, none, some, List, [], ◌∷◌, length, arith, Bool-cases, if◌then◌else◌, ltb, ◌==◌, is_neg,
}
use remotecopy.Base.Control.{
  Event, Turn, again, leave, crash, Outcome, returned, waiting, faulted, Progress,
  poll_loop-Progress, TurnIs, attempt-Is, Result, ok, fault, ◌>>=◌, poll_loop, Fault,
}
use remotecopy.Base.Machine.{Falls, IsFinal, machine-IsFinal}
use remotecopy.Window.{WindowArray, check_window_open}
use remotecopy.Pdu.{process_pdu, Pdu}
use remotecopy.Server.State.{State, System, Sender, Patience}
use remotecopy.Server.Send.{send_eof, send_data_packet}
use remotecopy.Server.Transfer.{
  window_open, open_turn, open_answer, use_read, window_closed, closed_turn, closed_answer,
  end_of_file, eof_turn, eof_answer, max_tries,
}
use remotecopy.Server.Process.{
  Child, is_done, switch, filename, answer_setup, setup_fields, process_client, fresh_child,
  sender_of, of_sender, of_patience, with_window, open_window, after_filename, enough_rounds,
  response_state,
}

abbrev window_weight : Bool → ℕ
window_weight true = 3
window_weight false = 1

-- The window of a child, if it is open.
abbrev is_open : Option WindowArray → Bool
is_open none = false
is_open (some w) = check_window_open w

abbrev weight : State → Option WindowArray → ℕ
weight State.start w = 5
weight State.filename w = 4
weight State.window_open w = 2
weight State.window_closed w = window_weight (is_open w)
weight State.end_of_file w = 1
weight State.done w = 0

abbrev measure : State → List Event → Child → ℕ
measure st es c = 6 * length es + weight st c.window

window_weight-le : (b : Bool) → window_weight b ≤ 5
window_weight-le true = omega arith
window_weight-le false = omega arith

weight-le : (st : State) (w : Option WindowArray) → weight st w ≤ 5
weight-le State.start w = omega arith
weight-le State.filename w = omega arith
weight-le State.window_open w = omega arith
weight-le State.window_closed w = window_weight-le (is_open w)
weight-le State.end_of_file w = omega arith
weight-le State.done w = omega arith

window_weight-pos : (b : Bool) → 1 ≤ window_weight b
window_weight-pos true = omega arith
window_weight-pos false = omega arith

-- filename is left for WINDOW_OPEN or DONE.
abbrev TurnsTo : Result (State × Child) → Type 0
TurnsTo (ok (st, c)) = (w : Option WindowArray) → weight st w < 4
TurnsTo (fault f) = Unit {0}

-- window_open is left at its test for a state of less weight.
abbrev Light : Turn Sender State → Type 0
Light = TurnIs (λ s. Unit {0}) (λ st s. weight st (some s.window) < 2) (λ f. Unit {0})

module _ (sys : System) (buffer_size : ℕ) where
  use_read-Light : (o : Option (List ℕ)) (s : Sender) → Light (use_read sys buffer_size o s)
  unfolding use_read
  use_read-Light none s = omega arith
  use_read-Light (some []) s = omega arith
  use_read-Light (some (b ∷ bytes)) s =
      attempt-Is (λ s. Unit {0}) (λ st s. weight st (some s.window) < 2) (λ f. Unit {0}) again
        (λ f. tt) (λ s. tt)
        (send_data_packet sys (b ∷ bytes) (record s { offset = s.offset + suc (length bytes) }))

  open_turn-Light : (s : Sender) → Light (open_turn sys buffer_size s)
  unfolding open_turn
  open_turn-Light s = elim (Bool-cases (check_window_open s.window)) [
    | inl e ↦ rw e (sized (is_neg buffer_size))
    | inr e ↦ rw e (closed e)
  ]
    where
      sized :
          (b : Bool)
          → Light (
              if b
              then crash Fault.overflow
              else use_read sys buffer_size (sys.read_input s.offset buffer_size) s)
      sized true = tt
      sized false = use_read-Light (sys.read_input s.offset buffer_size) s

      closed : check_window_open s.window ≡ false → window_weight (check_window_open s.window) < 2
      closed e = rw e (omega arith)

  leave-Light :
      (t : Turn Sender State) (a : State) (s : Sender)
      → Light t
      → t ≡ leave a s
      → weight a (some s.window) < 2
  leave-Light (again s') a s h e = absurd (cc)
  leave-Light (leave b s') a s h e = ground arith
  leave-Light (crash f) a s h e = absurd (cc)

module _ (sys : System) where
  abbrev Ends : ℕ → Outcome Child State → Type 0
  Ends n o = Falls is_done (switch sys []) measure n o

  of_sender-Ends :
      (c : Child) (es : List Event) (s : Sender) (o : Outcome Sender State)
      → Progress (open_turn sys c.buf_size) (open_answer sys c.buf_size) es s o
      → Ends (6 * length es + 2) (of_sender sys c o)
  of_sender-Ends c es s (returned a es' w) (inl h) = omega (arith, weight-le a (some w.window))
  of_sender-Ends c es s (returned a es' w) (inr (q, e)) = omega (
    arith,
    ap length q,
    leave-Light sys c.buf_size (open_turn sys c.buf_size s) a w (open_turn-Light sys c.buf_size s)
        e,
  )
  of_sender-Ends c es s (waiting w) h = tt
  of_sender-Ends c es s (faulted f) h = tt

  closed_leave :
      (buffer_size : ℕ) (s : Sender) (w : Patience) (a : State)
      → closed_turn sys buffer_size (record { sender = s; count = 0 }) ≡ leave a w
      → weight a (some w.sender.window) < window_weight (check_window_open s.window)
  unfolding closed_turn
  closed_leave buffer_size s w a e = by_test (check_window_open s.window) e
    where
      start : Patience
      start = record { sender = s; count = 0 }

      by_test :
          (b : Bool)
          → ◌≡◌ {A = Turn Patience State}
              (if not b && ltb 0 max_tries
                then again start
                else leave (if 0 == max_tries then State.done else State.window_open) start)
              (leave a w)
          → weight a (some w.sender.window) < window_weight b
      by_test true q = ground arith
      by_test false q = absurd (cc)

  of_patience-Ends :
      (c : Child) (w : WindowArray) (es : List Event) (s : Sender) (o : Outcome Patience State)
      → s.window ≡ w
      → Progress
          (closed_turn sys c.buf_size)
          (closed_answer sys c.buf_size)
          es
          (record { sender = s; count = 0 })
          o
      → Ends (6 * length es + window_weight (check_window_open w)) (of_patience sys c o)
  of_patience-Ends c w es s (returned a es' x) q (inl h) =
      omega (arith, weight-le a (some x.sender.window), window_weight-pos (check_window_open w))
  of_patience-Ends c w es s (returned a es' x) q (inr (z, e)) = omega (
    arith,
    ap length z,
    ap (λ v. window_weight (check_window_open v)) q,
    closed_leave c.buf_size s x a e,
  )
  of_patience-Ends c w es s (waiting x) q h = tt
  of_patience-Ends c w es s (faulted f) q h = tt

  of_eof-Ends :
      (c : Child) (es : List Event) (s : Sender) (o : Outcome Patience State)
      → Progress
          (eof_turn sys c.buf_size)
          (eof_answer sys c.buf_size)
          es
          (record { sender = s; count = 0 })
          o
      → Ends (6 * length es + 1) (of_patience sys c o)
  unfolding eof_turn
  of_eof-Ends c es s (returned a es' x) (inl h) = omega (arith, weight-le a (some x.sender.window))
  of_eof-Ends c es s (returned a es' x) (inr (z, e)) = absurd (cc)
  of_eof-Ends c es s (waiting x) h = tt
  of_eof-Ends c es s (faulted f) h = tt

  eof-Ends :
      (c : Child) (es : List Event) (s : Sender)
      → Ends (6 * length es + 1) (of_patience sys c (end_of_file sys c.buf_size es s))
  unfolding end_of_file
  eof-Ends c es s = by_result (send_eof sys s)
    where
      by_result :
          (r : Result Sender)
          → Ends (6 * length es + 1) (
              of_patience sys c (elim r [
                | fault f ↦ faulted f
                | ok s' ↦
                    poll_loop
                      (eof_turn sys c.buf_size)
                      (eof_answer sys c.buf_size)
                      es
                      (record { sender = s'; count = 0 })
              ]))
      by_result (fault f) = tt
      by_result (ok s') = of_eof-Ends c es s' _ (
          poll_loop-Progress (eof_turn sys c.buf_size) (eof_answer sys c.buf_size) es
            (record { sender = s'; count = 0 }))

  with_window-Ends :
      (n : ℕ) (o : Option WindowArray) (k : WindowArray → Outcome Child State)
      → ((w : WindowArray) → o ≡ some w → Ends n (k w))
      → Ends n (with_window sys o k)
  with_window-Ends n none k h = tt
  with_window-Ends n (some w) k h = h w refl

  after_filename-Ends :
      (es : List Event) (r : Result (State × Child))
      → TurnsTo r
      → Ends (6 * length es + 4) (after_filename sys es r)
  after_filename-Ends es (ok (st, c)) h = omega (arith, h c.window)
  after_filename-Ends es (fault f) h = tt

  response-light : (b : Bool) (w : Option WindowArray) → weight (response_state b) w < 4
  response-light true w = omega arith
  response-light false w = omega arith

  filename-TurnsTo : (buf : List ℕ) (c : Child) → TurnsTo (filename sys buf c)
  unfolding filename
  filename-TurnsTo buf c = by_pdu (process_pdu sys.in_cksum buf)
    where
      by_fields :
          (seq : ℕ) (r : Result (ℕ × ℕ × List ℕ)) → TurnsTo (r >>= λ f. answer_setup sys seq f c)
      by_fields seq (ok (size, buf_size, name)) =
          unfold answer_setup in response-light (sys.open_input name)
      by_fields seq (fault f) = tt

      by_pdu :
          (o : Option Pdu)
          → TurnsTo (elim o [
            | none ↦ ok (State.done, c)
            | some p ↦ setup_fields p.payload >>= λ f. answer_setup sys p.sequence_number f c
          ])
      by_pdu none = λ w. omega arith
      by_pdu (some p) = by_fields p.sequence_number (setup_fields p.payload)

  switch-Ends :
      (buf : List ℕ) (st : State) (es : List Event) (c : Child)
      → is_done st ≡ false
      → Ends (measure st es c) (switch sys buf st es c)
  unfolding switch
  switch-Ends buf State.start es c h = omega arith
  switch-Ends buf State.filename es c h =
      after_filename-Ends es (filename sys buf c) (filename-TurnsTo buf c)
  switch-Ends buf State.window_open es c h =
      with_window-Ends (6 * length es + 2) (open_window sys c) _ λ w q.
        unfold window_open in
        of_sender-Ends c es (sender_of sys w c) _ (
          poll_loop-Progress (open_turn sys c.buf_size) (open_answer sys c.buf_size) es
            (sender_of sys w c))
  switch-Ends buf State.window_closed es c h =
      with_window-Ends (6 * length es + window_weight (is_open c.window)) c.window _ λ w q.
        unfold window_closed in
        subst
          (λ o. Ends (6 * length es + window_weight (is_open o)) (
            of_patience sys c (
              poll_loop (closed_turn sys c.buf_size) (closed_answer sys c.buf_size) es
                (record { sender = sender_of sys w c; count = 0 }))))
          (sym q)
          (of_patience-Ends c w es (sender_of sys w c) _ refl (
            poll_loop-Progress (closed_turn sys c.buf_size) (closed_answer sys c.buf_size) es
              (record { sender = sender_of sys w c; count = 0 })))
  switch-Ends buf State.end_of_file es c h =
      with_window-Ends (6 * length es + 1) c.window _ λ w q. eof-Ends c es (sender_of sys w c)
  switch-Ends buf State.done es c h = absurd (cc)

  -- For every setup packet and every list of events, process_client's run in the model is final: it
  -- ends in DONE, waits for one event more, or runs into a fault. The rounds of its main loop are
  -- enough.
  pub process_client-IsFinal :
      (buf : List ℕ) (es : List Event)
      → IsFinal is_done (switch sys buf) (process_client sys buf es)
  unfolding process_client
  process_client-IsFinal buf es =
      machine-IsFinal is_done (switch sys buf) measure (switch-Ends buf) (enough_rounds sys es)
        State.start es fresh_child (omega arith)
