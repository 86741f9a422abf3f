-- ===== src/Rcopy/Args.antt =====
-- checkArgs, start and main of project_3/rcopy.c. sendErr_init of libcpe464 has no part in the state.
use remotecopy.Base.{
  ℕ, ◌≤◌, ◌≡◌, not, ◌||◌, Option, none, some, List, [], length, get_or, ltb, ◌==◌, if◌then◌else◌,
  slt, arith,
}
use remotecopy.Base.Atoi.{atoi, atoi-lt}
use remotecopy.Base.Control.{Event, Outcome}
use remotecopy.Posix.{Posix, Process, ◌>>=◌, pure, exit, Address}
use remotecopy.Networks.{setup_udp_client_to_server}
use remotecopy.PollSet.{PollSet, setup_poll_set, add_to_poll_set}
use remotecopy.Protocol.{max_filename_length}
use remotecopy.Rcopy.State.{State, System}
use remotecopy.Rcopy.Process.{Arguments, Client, process_file}

-- `argv[i]`
abbrev pub arg : List (List ℕ) → ℕ → List ℕ
arg argv i = get_or argv i []

-- The status that checkArgs exits with; `none` is that it returns.
unfoldable pub check_args : List (List ℕ) → Option ℕ
check_args argv =
    if not (length argv == 8)
    then some 1
    else if ltb max_filename_length (length (arg argv 1))
    then some 1
    else if ltb max_filename_length (length (arg argv 2))
    then some 1
    else if slt (atoi (arg argv 5)) 0 || not (slt (atoi (arg argv 5)) 1)
    then some 1
    else if slt 1400 (atoi (arg argv 4)) || slt (atoi (arg argv 4)) 108
    then some 255
    else none

-- What processFile reads of `argv`.
abbrev pub arguments_of : List (List ℕ) → Arguments
arguments_of argv = record {
  from_file = arg argv 1;
  window_size = atoi (arg argv 3);
  buffer_size = atoi (arg argv 4);
}

-- The set with the socket, or the end of the process.
abbrev pub entered : ℕ → Address → Option PollSet → Process (ℕ × Address × PollSet)
entered s a none = exit 255
entered s a (some p) = pure (s, a, p)

unfoldable pub start : Posix → List (List ℕ) → PollSet → Process (ℕ × Address × PollSet)
unfolding setup_udp_client_to_server setup_poll_set add_to_poll_set
start sys argv p = do
  r ← setup_udp_client_to_server sys (arg argv 6) (atoi (arg argv 7))
  entered (r.0) (r.1) (add_to_poll_set (r.0) (setup_poll_set p))

-- main: `none` is that checkArgs has ended the process.
unfoldable pub main : System → List (List ℕ) → List Event → Option (Outcome Client State)
unfolding check_args process_file
main sys argv es = elim (check_args argv) [
  | some status ↦ none
  | none ↦ some (process_file sys (arguments_of argv) es)
]

-- Arguments that are accepted have a name of at most 100 bytes and a buffer size from 108 to 1400.
pub check_args-bounds :
    (argv : List (List ℕ))
    → check_args argv ≡ none
    → (length (arguments_of argv).from_file ≤ 100)
      × (108 ≤ (arguments_of argv).buffer_size)
      × ((arguments_of argv).buffer_size ≤ 1400)
unfolding check_args
check_args-bounds argv h = ground (arith, atoi-lt (arg argv 4))
