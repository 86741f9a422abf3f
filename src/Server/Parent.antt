-- ===== src/Server/Parent.antt =====
-- main, process_server, checkArgs and clean_up of project_3/server.c: the parent process, which
-- starts a child for each setup packet. sendErr_init of libcpe464 has no part in the state.
use remotecopy.Base.{
  ℕ, ◌+◌, Bool, ◌||◌, Option, none, some, List, [], ◌∷◌, length, take, get_or, ltb, ◌==◌,
  if◌then◌else◌,
}
use remotecopy.Base.Atoi.{atoi}
use remotecopy.Base.Control.{Event, timeout, arrives, Outcome, Result, ok, fault}
use remotecopy.Window.{WindowArray}
use remotecopy.Window.Memory.{Block, free_window}
use remotecopy.Posix.{close_positive, Posix, Process, Call, ◌>>=◌, ◌>>◌, pure, exit, attempt}
use remotecopy.Networks.{udp_server_setup}
use remotecopy.Protocol.{max_filename_length, size_of_buf_size_var, size_of_window_size_var}
use remotecopy.Pdu.{pdu_header_len}
use remotecopy.PollSet.{PollSet, setup_poll_set, add_to_poll_set}
use remotecopy.Server.State.{State, System}
use remotecopy.Server.Process.{Child, process_client}

-- The tests of `atof(argv[1])`, and what checkArgs prints or returns.
pub record Rates : Type 0 where
  pub below_zero : List ℕ → Bool
  pub at_least_one : List ℕ → Bool

abbrev pub arg : List (List ℕ) → ℕ → List ℕ
arg argv i = get_or argv i []

-- The port, or the end of the process.
unfoldable pub check_args : Rates → List (List ℕ) → Process ℕ
check_args rates argv =
    if ltb (length argv) 2 || ltb 3 (length argv)
    then exit 1
    else if rates.below_zero (arg argv 1) || rates.at_least_one (arg argv 1)
    then exit 1
    else if length argv == 3
    then pure (atoi (arg argv 2))
    else pure 0

-- What `fork` returns: an error, zero in the child, or the child's number.
pub data Fork : Type 0 where
  failed child parent : Fork

-- How process_server goes on: the parent waits at its poll, with the buffers of the children that it
-- has started, the newest first; this process has become a child with a buffer; or it has ended.
pub data Role : Type 0 where
  waits : List (List ℕ) → Role
  serves : List ℕ → Role
  ends : ℕ → Role

abbrev pub setup_buffer_length : ℕ
setup_buffer_length =
    pdu_header_len + max_filename_length + size_of_buf_size_var + size_of_window_size_var

-- What the polls bring, each with the result of the `fork` that follows.
unfoldable pub process_server : List (Event × Fork) → List (List ℕ) → Role
process_server [] children = waits children
process_server ((timeout, f) ∷ es) children = process_server es children
process_server ((arrives datagram, failed) ∷ es) children = ends 255
process_server ((arrives datagram, child) ∷ es) children =
    serves (take setup_buffer_length datagram)
process_server ((arrives datagram, parent) ∷ es) children =
    process_server es (take setup_buffer_length datagram ∷ children)

-- In the child: the parent's socket is closed and another one is opened. It is not entered into the
-- poll set that the child has from its parent.
unfoldable pub open_child : Posix → ℕ → Process ℕ
unfolding udp_server_setup
open_child sys client_socket = do attempt sys (Call.close client_socket); udp_server_setup sys 0

-- The child opens its socket and runs process_client; then it exits with 0.
unfoldable pub serve_child :
    Posix → System → ℕ → List ℕ → List Event → Process (Outcome Child State)
unfolding open_child process_client
serve_child sys world client_socket buf es = do
  open_child sys client_socket
  pure (process_client world buf es)

abbrev pub entered : ℕ → Option PollSet → Process (ℕ × PollSet)
entered s none = exit 255
entered s (some p) = pure (s, p)

-- main down to process_server: the socket, and the poll set with it. `p` has the descriptors that are
-- polled before.
unfoldable pub listening : Posix → Rates → List (List ℕ) → PollSet → Process (ℕ × PollSet)
unfolding check_args udp_server_setup setup_poll_set add_to_poll_set
listening sys rates argv p = do
  port ← check_args rates argv
  main_server_socket ← udp_server_setup sys port
  entered main_server_socket (add_to_poll_set main_server_socket (setup_poll_set p))

unfoldable pub main : Posix → Rates → List (List ℕ) → PollSet → List (Event × Fork) → Process Role
unfolding listening process_server
main sys rates argv p es = do _ ← listening sys rates argv p; pure (process_server es [])

-- The blocks that clean_up frees, behind the calls of close; a fault of free_window comes before them.
unfoldable pub clean_up : Posix → Option WindowArray → ℕ → ℕ → Process (Result (List Block))
unfolding free_window close_positive
clean_up sys window data_file child_socket = elim (free_window window) [
  | fault f ↦ pure (fault f)
  | ok blocks ↦ do close_positive sys data_file; close_positive sys child_socket; pure (ok blocks)
]
