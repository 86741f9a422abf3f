-- ===== src/Rcopy/Termination.antt =====
-- processFile (project_3/rcopy.c) ends: for every list of events the model's rounds suffice.
use remotecopy.Base.{
  ℕ, zero, suc, ◌==◌, get_or, drop, if◌then◌else◌, ◌+◌, ◌*◌, ◌≤◌, ◌<◌, ◌≡◌, inl, inr, Bool, true,
  false, Option, none, some, List, [], ◌∷◌, length, subst, arith,
}
use remotecopy.Base.Control.{
  overflow, null_pointer, timeout, arrives, Event, Turn, again, leave, crash, Outcome, returned,
  waiting, faulted, Progress, poll_loop-Progress, TurnIs, attempt-Is, attempt,
}
use remotecopy.Base.Machine.{Falls, IsFinal, machine-IsFinal}
use remotecopy.Protocol.{eof_flag, recv_flag_location}
use remotecopy.Pdu.{Pdu, process_pdu, pdu_header_len}
use remotecopy.Window.{WindowArray, remove_pdu, get_pdu, check_pdu_valid}
use remotecopy.Rcopy.Send.{advance, send_eof_ack, write}
use remotecopy.Rcopy.State.{State, System, Receiver}
use remotecopy.Rcopy.Transfer.{
  in_order, in_order_answer, buffering, buffering_answer, flush, flush_next, flush_pdu, flush_turn,
  flush_read, flush_again, flush_rounds, room, received, send_current_rr,
}
use remotecopy.Rcopy.Process.{
  Arguments, Client, Asking, is_done, switch, filename, too_short, file_okay, process_file,
  fresh_client, receiver_of, of_receiver, of_asking, of_flush, with_window, open_window,
  in_order_null, in_order_with, ask_turn, ask_answer, setup_pdu, enough_rounds,
}

abbrev weight : State → ℕ
weight State.start = 5
weight State.filename = 4
weight State.file_okay = 3
weight State.flush = 2
weight _ = 1

abbrev measure : State → List Event → Client → ℕ
measure st es c = 6 * length es + weight st

weight-le : (st : State) → weight st ≤ 5
weight-le State.start = omega arith
weight-le State.filename = omega arith
weight-le State.file_okay = omega arith
weight-le State.in_order = omega arith
weight-le State.buffering = omega arith
weight-le State.flush = omega arith
weight-le State.done = omega arith

-- flush is left for a state of less weight.
abbrev Light : Turn Receiver State → Type 0
Light = TurnIs (λ r. Unit {0}) (λ st r. weight st < 2) (λ f. Unit {0})

module _ (sys : System) (buffer_size : ℕ) where
  flush_next-Light : (t : Receiver × Bool) → Light (flush_next sys buffer_size t)
  unfolding flush_next
  flush_next-Light (r, false) = omega arith
  flush_next-Light (r, true) =
      attempt-Is (λ r. Unit {0}) (λ st r. weight st < 2) (λ f. Unit {0}) _ (λ f. tt)
        (λ w. test (send_current_rr sys buffer_size (advance (with_new r w))) _)
        (remove_pdu r.window r.window.current)
    where
      with_new : Receiver → WindowArray → Receiver
      with_new r w = record r { window = w }

      test : (r' : Receiver) (b : Bool) → Light (if b then leave State.in_order r' else again r')
      test r' true = omega arith
      test r' false = tt

  flush_pdu-Light : (pdu : List ℕ) (r : Receiver) → Light (flush_pdu sys buffer_size pdu r)
  unfolding flush_pdu
  flush_pdu-Light pdu r = test (get_or pdu recv_flag_location 0 == eof_flag) (length pdu == 0)
    where
      test :
          (b c : Bool)
          → Light (
              if b
              then leave State.done (send_eof_ack sys r)
              else if c
              then flush_next sys buffer_size (r, true)
              else flush_next sys buffer_size (write sys (drop pdu_header_len pdu) r))
      test true c = omega arith
      test false true = flush_next-Light (r, true)
      test false false = flush_next-Light (write sys (drop pdu_header_len pdu) r)

  flush_turn-Light : (r : Receiver) → Light (flush_turn sys buffer_size r)
  unfolding flush_turn
  flush_turn-Light r =
      attempt-Is (λ r. Unit {0}) (λ st r. weight st < 2) (λ f. Unit {0}) _ (λ f. tt) valid
        (check_pdu_valid r.window r.window.current)
    where
      read : (o : Option (List ℕ)) → Light (flush_read sys buffer_size r o)
      read none = tt
      read (some pdu) = flush_pdu-Light pdu r

      valid :
          (b : Bool)
          → Light (
              if b
              then attempt
                  (get_pdu r.window (room sys buffer_size) r.window.current)
                  (flush_read sys buffer_size r)
              else leave State.buffering r)
      valid true =
          attempt-Is (λ r. Unit {0}) (λ st r. weight st < 2) (λ f. Unit {0})
            (flush_read sys buffer_size r) (λ f. tt) read
            (get_pdu r.window (room sys buffer_size) r.window.current)
      valid false = omega arith

  again-Light :
      (n : ℕ) (t : Turn Receiver State)
      → Light t
      → ((r : Receiver) → Light (flush_rounds sys buffer_size n r))
      → Light (flush_again sys buffer_size (flush_rounds sys buffer_size n) t)
  again-Light n (again r) h k = k r
  again-Light n (leave st r) h k = h
  again-Light n (crash f) h k = tt

  flush_rounds-Light : (n : ℕ) (r : Receiver) → Light (flush_rounds sys buffer_size n r)
  unfolding flush_rounds
  flush_rounds-Light zero r = tt
  flush_rounds-Light (suc n) r =
      again-Light n (flush_turn sys buffer_size r) (flush_turn-Light r) (flush_rounds-Light n)

  flush-Light : (r : Receiver) → Light (flush sys buffer_size r)
  unfolding flush
  flush-Light r = flush_rounds-Light (suc r.window.window_size) r

module _ (sys : System) (args : Arguments) where
  abbrev Ends : ℕ → Outcome Client State → Type 0
  Ends n o = Falls is_done (switch sys args) measure n o

  -- A loop that has used an event.
  of_receiver-Ends :
      (c : Client) (es : List Event) (r : Receiver) (on : Event → Receiver → Turn Receiver State)
      (o : Outcome Receiver State)
      → Progress again on es r o
      → Ends (6 * length es + 1) (of_receiver sys args c o)
  of_receiver-Ends c es r on (returned a es' w) (inl h) = omega (arith, weight-le a)
  of_receiver-Ends c es r on (returned a es' w) (inr (q, e)) = absurd (cc)
  of_receiver-Ends c es r on (waiting w) h = tt
  of_receiver-Ends c es r on (faulted f) h = tt

  of_asking-Ends :
      (c : Client) (es : List Event) (pdu : List ℕ) (o : Outcome Asking State)
      → Progress
          (ask_turn sys args pdu)
          (ask_answer sys args)
          es
          (record { sent = c.sent; count = 0 })
          o
      → Ends (6 * length es + 4) (of_asking sys args c o)
  unfolding ask_turn
  of_asking-Ends c es pdu (returned a es' w) (inl h) = omega (arith, weight-le a)
  of_asking-Ends c es pdu (returned a es' w) (inr (q, e)) = absurd (cc)
  of_asking-Ends c es pdu (waiting w) h = tt
  of_asking-Ends c es pdu (faulted f) h = tt

  of_flush-Ends :
      (c : Client) (es : List Event) (t : Turn Receiver State)
      → Light t
      → Ends (6 * length es + 2) (of_flush sys args c es t)
  of_flush-Ends c es (again r) h = tt
  of_flush-Ends c es (leave st r) h = omega arith
  of_flush-Ends c es (crash f) h = tt

  with_window-Ends :
      (n : ℕ) (o : Option WindowArray) (k : WindowArray → Outcome Client State)
      → ((w : WindowArray) → Ends n (k w))
      → Ends n (with_window sys args o k)
  with_window-Ends n none k h = tt
  with_window-Ends n (some w) k h = h w

  null-Ends :
      (o : Option Pdu) (es : List Event) (c : Client)
      → Ends
          (6 * length es + 7)
          (elim o [ none ↦ returned State.in_order es c | some p ↦ faulted null_pointer ])
  null-Ends none es c = omega arith
  null-Ends (some p) es c = tt

  in_order_null-Ends :
      (es : List Event) (c : Client) → Ends (6 * length es + 1) (in_order_null sys args es c)
  unfolding in_order_null
  in_order_null-Ends [] c = tt
  in_order_null-Ends (timeout ∷ es) c = omega arith
  in_order_null-Ends (arrives datagram ∷ es) c =
      subst (λ n. Ends n (in_order_null sys args (arrives datagram ∷ es) c)) (omega arith)
        (null-Ends (process_pdu sys.in_cksum (received sys args.buffer_size datagram)) es c)

  in_order_with-Ends :
      (o : Option WindowArray) (es : List Event) (c : Client)
      → Ends (6 * length es + 1) (in_order_with sys args o es c)
  unfolding in_order
  in_order_with-Ends none es c = in_order_null-Ends es c
  in_order_with-Ends (some w) es c =
      of_receiver-Ends c es (receiver_of sys args w c) (in_order_answer sys args.buffer_size) _ (
        poll_loop-Progress again (in_order_answer sys args.buffer_size) es
          (receiver_of sys args w c))

  file_okay-Ends :
      (c : Client) (es : List Event) (b : Bool)
      → Ends (6 * length es + 3) (returned (if b then State.in_order else State.done) es c)
  file_okay-Ends c es true = omega arith
  file_okay-Ends c es false = omega arith

  unless-Ends :
      (n : ℕ) (o : Outcome Client State) (b : Bool)
      → Ends n o
      → Ends n (if b then faulted overflow else o)
  unless-Ends n o true h = tt
  unless-Ends n o false h = h

  switch-Ends :
      (st : State) (es : List Event) (c : Client)
      → is_done st ≡ false
      → Ends (measure st es c) (switch sys args st es c)
  unfolding switch
  switch-Ends State.start es c h = omega arith
  switch-Ends State.filename es c h =
      unfold filename in
      unless-Ends (6 * length es + 4) _ (too_short sys args) (
        of_asking-Ends c es (setup_pdu sys args c.sequence_number) _ (
          poll_loop-Progress (ask_turn sys args (setup_pdu sys args c.sequence_number))
            (ask_answer sys args) es (record { sent = c.sent; count = 0 })))
  switch-Ends State.file_okay es c h = unfold file_okay in file_okay-Ends c es sys.open_output
  switch-Ends State.in_order es c h = in_order_with-Ends (open_window sys args c) es c
  switch-Ends State.buffering es c h = with_window-Ends (6 * length es + 1) c.window _ λ w.
      unfold buffering in
      of_receiver-Ends c es (receiver_of sys args w c) (buffering_answer sys args.buffer_size) _ (
        poll_loop-Progress again (buffering_answer sys args.buffer_size) es
          (receiver_of sys args w c))
  switch-Ends State.flush es c h = with_window-Ends (6 * length es + 2) c.window _ λ w.
      of_flush-Ends c es (flush sys args.buffer_size (receiver_of sys args w c))
        (flush-Light sys args.buffer_size (receiver_of sys args w c))
  switch-Ends State.done es c h = absurd (cc)

  -- For every list of events, processFile's run in the model is final: it ends in DONE, waits for
  -- one event more, or runs into a fault. The rounds of its main loop are enough.
  pub process_file-IsFinal :
      (es : List Event) → IsFinal is_done (switch sys args) (process_file sys args es)
  unfolding process_file
  process_file-IsFinal es =
      machine-IsFinal is_done (switch sys args) measure switch-Ends (enough_rounds sys args es)
        State.start es fresh_client (omega arith)
