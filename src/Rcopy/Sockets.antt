-- ===== src/Rcopy/Sockets.antt =====
-- The sockets of filename and file_okay of project_3/rcopy.c: after each attempt without an answer
-- the socket is closed and a new one is opened, which alone is in the poll set. Also clean_up.
pub mod Reopening
mod Tests
use remotecopy.Base.{
  ℕ, zero, suc, ◌+◌, ◌*◌, ◌≤◌, ◌<◌, ◌≡◌, ◌≢◌, refl, sym, ap, ◌∙◌, Option, none, some, List, [], ◌∷◌,
  length, length-set, length-replicate, replicate, get_elem?, get_elem?-set_self, get_elem?-set_ne,
  set, leb, ◌==◌, if◌then◌else◌, arith, ==-ne,
}
use remotecopy.Base.Atoi.{atoi}
use remotecopy.Base.Control.{Result, ok, fault}
use remotecopy.Window.{WindowArray}
use remotecopy.Window.Memory.{Block, free_window}
use remotecopy.Posix.{
  close_positive, Address, Call, Posix, Process, Ending, done, exits, failure, must, attempt, pure,
  exit, ◌>>=◌, ◌>>◌,
}
use remotecopy.Lookup.{af_inet6, gethostbyname6}
use remotecopy.Networks.{sock_dgram, own_address, found, setup_udp_client_to_server}
use remotecopy.Networks.Order.{Ends, found-Ends}
use remotecopy.PollSet.{
  PollFd, PollSet, poll_set_size, pollin, empty_fd, setup_poll_set, add_to_poll_set,
  remove_from_poll_set, enter, IsPollSet,
}
use remotecopy.Rcopy.Process.{max_tries}
use remotecopy.Rcopy.Args.{arg, entered, start}

abbrev pub Connection : Type 0
Connection = ℕ × Address × PollSet

module _ (sys : Posix) (argv : List (List ℕ)) where
  -- filename: the socket is replaced by a new one.
  unfoldable pub reopen : Connection → Process Connection
  unfolding setup_udp_client_to_server setup_poll_set add_to_poll_set remove_from_poll_set
  reopen (s, a, p) = do
    _ ← attempt sys (Call.close s)
    r ← setup_udp_client_to_server sys (arg argv 6) (atoi (arg argv 7))
    entered (r.0) (r.1) (add_to_poll_set (r.0) (setup_poll_set (remove_from_poll_set s p)))

  -- filename: after the last attempt the socket is closed, but stays in the poll set.
  unfoldable pub give_up : Connection → Process Connection
  give_up (s, a, p) = do _ ← attempt sys (Call.close s); pure (s, a, p)

  -- filename, after a response that refuses the file, and file_okay, where the file cannot be opened.
  unfoldable pub hang_up : Connection → Process Connection
  unfolding remove_from_poll_set
  hang_up (s, a, p) = do _ ← attempt sys (Call.close s); pure (s, a, remove_from_poll_set s p)

  -- filename, behind an attempt without an answer: `count` attempts were made before it.
  unfoldable pub unanswered : ℕ → Connection → Process Connection
  unfolding reopen give_up
  unanswered count c = if count + 1 == max_tries then give_up c else reopen c

  -- filename over so many attempts without an answer.
  unfoldable pub ask_sockets : ℕ → ℕ → Connection → Process Connection
  unfolding unanswered
  ask_sockets zero count c = pure c
  ask_sockets (suc n) count c = unanswered count c >>= λ c'. ask_sockets n (count + 1) c'

-- The blocks that clean_up frees, behind the calls of close; a fault of free_window comes before them.
unfoldable pub clean_up : Posix → Option WindowArray → ℕ → ℕ → Process (Result (List Block))
unfolding free_window close_positive
clean_up sys window output_file_fd server_socket = elim (free_window window) [
  | fault f ↦ pure (fault f)
  | ok blocks ↦ do
    close_positive sys output_file_fd
    close_positive sys server_socket
    pure (ok blocks)
]
