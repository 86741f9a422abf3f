-- ===== src/Rcopy/Process.antt =====
-- filename, file_okay and processFile of project_3/rcopy.c: the program from the setup
-- packet to its end. Opening, closing and polling of sockets are not part of the state.
use remotecopy.Base.{
  ℕ, ◌+◌, ◌*◌, Bool, true, false, ◌||◌, Option, none, some, List, [], ◌∷◌, ◌++◌, take, length,
  get_or, ◌==◌, ltb, if◌then◌else◌, htonl, inc32, is_neg,
}
use remotecopy.Base.Control.{
  Event, timeout, arrives, Turn, again, leave, crash, Outcome, returned, waiting, faulted,
  poll_loop, null_pointer, overflow, uninitialised, endless,
}
use remotecopy.Base.Machine.{machine}
use remotecopy.Protocol.{
  filename_flag, filename_response_flag, file_ok, data_packet_flag, recv_flag_location,
  resent_timeout_data_packet_flag,
}
use remotecopy.Pdu.{create_pdu, process_pdu, pdu_header_len}
use remotecopy.Window.{WindowArray, make_window}
use remotecopy.Rcopy.State.{State, System, Receiver}
use remotecopy.Rcopy.Transfer.{in_order, buffering, flush, received}

-- What processFile reads of `argv`: the name of the file to copy, and the two sizes.
pub record Arguments : Type 0 where
  pub from_file : List ℕ
  pub window_size : ℕ
  pub buffer_size : ℕ

-- The variables of processFile. `window` is NULL until in_order has made one; `cleaned` is whether
-- clean_up has run.
pub record Client : Type 0 where
  pub window : Option WindowArray
  pub file : List ℕ
  pub sequence_number : ℕ
  pub sent : List (List ℕ)
  pub cleaned : Bool

abbrev pub fresh_client : Client
fresh_client = record { window = none; file = []; sequence_number = 0; sent = []; cleaned = false }

-- The number of times that the setup packet is sent.
abbrev pub max_tries : ℕ
max_tries = 10

-- The setup datagram has been sent `count` times without an answer.
pub record Asking : Type 0 where
  pub sent : List (List ℕ)
  pub count : ℕ

abbrev pub is_done : State → Bool
is_done State.done = true
is_done _ = false

module _ (sys : System) (args : Arguments) where
  unfoldable pub setup_pdu : ℕ → List ℕ
  setup_pdu seq =
      create_pdu sys.in_cksum seq filename_flag
        (htonl args.window_size ++ htonl args.buffer_size ++ args.from_file)

  -- filename: the loop's test, and the datagram is sent.
  unfoldable pub ask_turn : List ℕ → Asking → Turn Asking State
  ask_turn pdu w =
      if ltb w.count max_tries then again (record w { sent = pdu ∷ w.sent }) else leave State.done w

  -- filename: no answer, or a corrupted one.
  unfoldable pub ask_again : Asking → Turn Asking State
  ask_again w =
      if w.count + 1 == max_tries
      then leave State.done (record w { count = w.count + 1 })
      else again (record w { count = w.count + 1 })

  -- filename: an answer that sums to zero. One that is shorter than a header, or than a header and
  -- the response that is asked for, leaves bytes uninitialised that are read.
  unfoldable pub ask_response : List ℕ → Asking → Turn Asking State
  ask_response buffer w =
      let flag = get_or buffer recv_flag_location 0 in
      if ltb (length buffer) pdu_header_len
      then crash uninitialised
      else if flag == filename_response_flag
      then (if length buffer == pdu_header_len
          then crash uninitialised
          else if get_or buffer pdu_header_len 0 == file_ok
          then leave State.file_okay w
          else leave State.done w)
      else if flag == data_packet_flag || flag == resent_timeout_data_packet_flag
      then leave State.file_okay w
      else leave State.done w

  unfoldable pub ask_answer : Event → Asking → Turn Asking State
  unfolding ask_again ask_response
  ask_answer timeout w = ask_again w
  ask_answer (arrives datagram) w =
      let buffer = take (pdu_header_len + args.buffer_size) datagram in
      if sys.in_cksum buffer == 0 then ask_response buffer w else ask_again w

  abbrev pub of_asking : Client → Outcome Asking State → Outcome Client State
  of_asking c (returned st es w) =
      returned st es (record c { sent = w.sent; sequence_number = inc32 c.sequence_number })
  of_asking c (waiting w) = waiting (record c { sent = w.sent })
  of_asking c (faulted f) = faulted f

  -- `pduBuffer`, of a header and `buffer_size` bytes, is too short for the setup packet, or has a
  -- negative size.
  abbrev pub too_short : Bool
  too_short = is_neg args.buffer_size || ltb args.buffer_size (8 + length args.from_file)

  unfoldable pub filename : List Event → Client → Outcome Client State
  filename es c =
      if too_short
      then faulted overflow
      else of_asking c (
          poll_loop (ask_turn (setup_pdu c.sequence_number)) ask_answer es
            (record { sent = c.sent; count = 0 }))

  unfoldable pub file_okay : List Event → Client → Outcome Client State
  file_okay es c = returned (if sys.open_output then State.in_order else State.done) es c

  abbrev pub receiver_of : WindowArray → Client → Receiver
  receiver_of w c = record {
    window = w;
    file = c.file;
    sequence_number = c.sequence_number;
    sent = c.sent;
  }

  abbrev pub update : Client → Receiver → Client
  update c r = record c {
    window = some r.window;
    file = r.file;
    sequence_number = r.sequence_number;
    sent = r.sent;
  }

  abbrev pub of_receiver : Client → Outcome Receiver State → Outcome Client State
  of_receiver c (returned st es r) = returned st es (update c r)
  of_receiver c (waiting r) = waiting (update c r)
  of_receiver c (faulted f) = faulted f

  -- flush polls for nothing, and goes on until it is left.
  abbrev pub of_flush : Client → List Event → Turn Receiver State → Outcome Client State
  of_flush c es (again r) = faulted endless
  of_flush c es (leave st r) = returned st es (update c r)
  of_flush c es (crash f) = faulted f

  -- The window is made when in_order runs for the first time.
  abbrev pub open_window : Client → Option WindowArray
  open_window c = elim c.window [ some w ↦ some w | none ↦ make_window args.window_size ]

  abbrev pub with_window :
      Option WindowArray → (WindowArray → Outcome Client State) → Outcome Client State
  with_window none k = faulted null_pointer
  with_window (some w) k = k w

  -- in_order without a window, which could not be made: a datagram that processPDU accepts is compared
  -- with the current number of the window.
  unfoldable pub in_order_null : List Event → Client → Outcome Client State
  in_order_null [] c = waiting c
  in_order_null (timeout ∷ es) c = returned State.done es c
  in_order_null (arrives datagram ∷ es) c =
      elim (process_pdu sys.in_cksum (received sys args.buffer_size datagram)) [
        | none ↦ returned State.in_order es c
        | some p ↦ faulted null_pointer
      ]

  abbrev pub in_order_with : Option WindowArray → List Event → Client → Outcome Client State
  in_order_with none es c = in_order_null es c
  in_order_with (some w) es c = of_receiver c (in_order sys args.buffer_size es (receiver_of w c))

  -- The call of clean_up in the case DONE; what it does to memory and descriptors is not part of
  -- this state.
  unfoldable pub mark_cleaned : Client → Client
  mark_cleaned c = record c { cleaned = true }

  -- The `switch` of processFile.
  unfoldable pub switch : State → List Event → Client → Outcome Client State
  unfolding mark_cleaned in_order_null
  switch State.start es c = returned State.filename es c
  switch State.filename es c = filename es c
  switch State.file_okay es c = file_okay es c
  switch State.in_order es c = in_order_with (open_window c) es c
  switch State.buffering es c =
      with_window c.window
        (λ w. of_receiver c (buffering sys args.buffer_size es (receiver_of w c)))
  switch State.flush es c =
      with_window c.window (λ w. of_flush c es (flush sys args.buffer_size (receiver_of w c)))
  switch State.done es c = returned State.done es (mark_cleaned c)

  -- The rounds that the given events can take.
  abbrev pub enough_rounds : List Event → ℕ
  enough_rounds es = 6 * length es + 6

  unfoldable pub process_file : List Event → Outcome Client State
  unfolding switch
  process_file es = machine is_done switch (enough_rounds es) State.start es fresh_client
