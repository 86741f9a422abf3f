-- ===== src/Server/Process.antt =====
-- filename and process_client of project_3/server.c: a child process from the setup
-- packet to its end.
use remotecopy.Base.{
  ℕ, ◌+◌, ◌*◌, Bool, true, false, Option, none, some, List, [], ◌∷◌, length, ◌==◌, ltb,
  if◌then◌else◌, ntohl,
}
use remotecopy.Base.Control.{
  Event, Outcome, returned, waiting, faulted, Result, ok, fault, ◌>>=◌, overflow, null_pointer,
}
use remotecopy.Base.Machine.{machine}
use remotecopy.Protocol.{max_filename_length, filename_response_flag, file_ok, file_not_ok}
use remotecopy.Pdu.{process_pdu, create_pdu}
use remotecopy.Window.{WindowArray, make_window}
use remotecopy.Server.State.{State, System, Sender, Patience}
use remotecopy.Server.Transfer.{window_open, window_closed, end_of_file}

-- The variables of process_client. `window` is NULL until window_open has made one; `cleaned` is
-- whether clean_up has run.
pub record Child : Type 0 where
  pub window : Option WindowArray
  pub window_size : ℕ
  pub buf_size : ℕ
  pub offset : ℕ
  pub sent : List (List ℕ)
  pub cleaned : Bool

abbrev pub fresh_child : Child
fresh_child = record {
  window = none;
  window_size = 0;
  buf_size = 0;
  offset = 0;
  sent = [];
  cleaned = false;
}

-- The string in a buffer: up to the first NUL.
unfoldable pub c_string : List ℕ → List ℕ
c_string [] = []
c_string (c ∷ cs) = if c == 0 then [] else c ∷ c_string cs

-- The window size, the buffer size and the file name of a setup packet. A payload of less than
-- eight bytes makes the length of the name negative, and a name of more than `max_filename_length`
-- bytes does not fit `fname`.
unfoldable pub setup_fields : List ℕ → Result (ℕ × ℕ × List ℕ)
setup_fields (a ∷ b ∷ c ∷ d ∷ e ∷ f ∷ g ∷ h ∷ name) =
    if ltb max_filename_length (length name)
    then fault overflow
    else ok (ntohl a b c d, ntohl e f g h, c_string name)
setup_fields _ = fault overflow

-- What `open` decides: the byte of the response, and the next state.
abbrev pub response_byte : Bool → ℕ
response_byte true = file_ok
response_byte false = file_not_ok

abbrev pub response_state : Bool → State
response_state true = State.window_open
response_state false = State.done

abbrev pub is_done : State → Bool
is_done State.done = true
is_done _ = false

module _ (sys : System) where
  -- The answer to a setup packet with these fields.
  unfoldable pub answer_setup : ℕ → ℕ × ℕ × List ℕ → Child → Result (State × Child)
  answer_setup seq (window_size, buf_size, name) c =
      let found = sys.open_input name in
      ok (
        response_state found,
        record c {
          window_size = window_size;
          buf_size = buf_size;
          sent =
              create_pdu sys.in_cksum seq filename_response_flag (response_byte found ∷ [])
              ∷ c.sent;
        },
      )

  -- `filename`, for the datagram that the parent received.
  unfoldable pub filename : List ℕ → Child → Result (State × Child)
  unfolding answer_setup
  filename buf c = elim (process_pdu sys.in_cksum buf) [
    | none ↦ ok (State.done, c)
    | some p ↦ setup_fields p.payload >>= λ f. answer_setup p.sequence_number f c
  ]

  abbrev pub sender_of : WindowArray → Child → Sender
  sender_of w c = record { window = w; offset = c.offset; sent = c.sent }

  abbrev pub update : Child → Sender → Child
  update c s = record c { window = some s.window; offset = s.offset; sent = s.sent }

  abbrev pub of_sender : Child → Outcome Sender State → Outcome Child State
  of_sender c (returned st es s) = returned st es (update c s)
  of_sender c (waiting s) = waiting (update c s)
  of_sender c (faulted f) = faulted f

  abbrev pub of_patience : Child → Outcome Patience State → Outcome Child State
  of_patience c (returned st es w) = returned st es (update c w.sender)
  of_patience c (waiting w) = waiting (update c w.sender)
  of_patience c (faulted f) = faulted f

  -- The window is made when window_open runs for the first time.
  abbrev pub open_window : Child → Option WindowArray
  open_window c = elim c.window [ some w ↦ some w | none ↦ make_window c.window_size ]

  abbrev pub with_window :
      Option WindowArray → (WindowArray → Outcome Child State) → Outcome Child State
  with_window none k = faulted null_pointer
  with_window (some w) k = k w

  -- The call of clean_up in the case DONE; what it does to memory and descriptors is not part of
  -- this state.
  unfoldable pub mark_cleaned : Child → Child
  mark_cleaned c = record c { cleaned = true }

  abbrev pub after_filename : List Event → Result (State × Child) → Outcome Child State
  after_filename es (ok (st, c)) = returned st es c
  after_filename es (fault f) = faulted f

  -- The `switch` of process_client.
  unfoldable pub switch : List ℕ → State → List Event → Child → Outcome Child State
  unfolding mark_cleaned
  switch buf State.start es c = returned State.filename es c
  switch buf State.filename es c = after_filename es (filename buf c)
  switch buf State.window_open es c =
      with_window (open_window c) (λ w. of_sender c (window_open sys c.buf_size es (sender_of w c)))
  switch buf State.window_closed es c =
      with_window c.window (λ w. of_patience c (window_closed sys c.buf_size es (sender_of w c)))
  switch buf State.end_of_file es c =
      with_window c.window (λ w. of_patience c (end_of_file sys c.buf_size es (sender_of w c)))
  switch buf State.done es c = returned State.done es (mark_cleaned c)

  -- The rounds that the given events can take.
  abbrev pub enough_rounds : List Event → ℕ
  enough_rounds es = 6 * length es + 6

  unfoldable pub process_client : List ℕ → List Event → Outcome Child State
  unfolding switch
  process_client buf es = machine is_done (switch buf) (enough_rounds es) State.start es fresh_child
