-- ===== src/Rcopy/Sockets/Reopening.antt =====
-- The poll set of project_3/rcopy.c behind start and attempts of filename without an answer.
use remotecopy.Base.{
  ℕ, zero, suc, Bool, false, ◌+◌, ◌*◌, ◌≤◌, ◌<◌, ◌≡◌, refl, Option, none, some, List, [], ◌∷◌,
  length, arith, ==-ne,
}
use remotecopy.Base.Atoi.{atoi}
use remotecopy.Posix.Descriptors.{new_socket, newest, is_open, GivesLowest, closed_free}
use remotecopy.Posix.{Address, Call, Posix, Ending, done, exits, failure, must, ◌>>=◌}
use remotecopy.Lookup.{gethostbyname6}
use remotecopy.Networks.{own_address, setup_udp_client_to_server}
use remotecopy.Networks.Order.{Ends, found-Ends, then-Ends}
use remotecopy.PollSet.Alone.{AsksOnly, added-AsksOnly}
use remotecopy.PollSet.{
  PollSet, poll_set_size, setup_poll_set, add_to_poll_set, remove_from_poll_set,
}
use remotecopy.Rcopy.Process.{max_tries}
use remotecopy.Rcopy.Args.{arg, entered, start}
use remotecopy.Rcopy.Sockets.{Connection, reopen, unanswered, ask_sockets}

-- Of the calls of a process, the sockets that it opened and the calls of close.
abbrev pub opened : List Call → ℕ
opened [] = 0
opened (Call.socket f t ∷ calls) = opened calls + 1
opened (_ ∷ calls) = opened calls

abbrev pub closed : List Call → ℕ
closed [] = 0
closed (Call.close s ∷ calls) = closed calls + 1
closed (_ ∷ calls) = closed calls

module _ (sys : Posix) (argv : List (List ℕ)) (inherited : ℕ → Bool)
    (law : GivesLowest sys inherited) where
  -- A descriptor below the size of a new poll set is not open.
  abbrev pub HasFree : List Call → Type 0
  HasFree calls = (free : ℕ) × (free < poll_set_size) × (is_open sys inherited calls free ≡ false)

  -- A new socket and the message.
  abbrev Fresh : List Call → ℕ × Address → List Call → Type 0
  Fresh calls r made =
      (r.0 < poll_set_size)
      × (newest sys made ≡ some (r.0))
      × (opened made ≡ opened calls + 1)
      × (closed made ≡ closed calls)
      × (length made ≡ length calls + 2)

  must_socket-Ends :
      (o : Option ℕ) (calls : List Call) (n : ℕ)
      → HasFree calls
      → sys.perform calls new_socket ≡ o
      → length calls + 1 < n
      → Ends
          (λ v made.
            (v < poll_set_size)
            × (sys.perform calls new_socket ≡ some v)
            × (made ≡ new_socket ∷ calls))
          n
          (elim o [
            | some v ↦ done v (new_socket ∷ calls)
            | none ↦ exits failure (new_socket ∷ calls)
          ])
  must_socket-Ends (some v) calls n (free, h, q) e room =
      (omega (arith, h, law.lowest calls v free e q), e, refl)
  must_socket-Ends none calls n h e room = ((λ q. omega arith), omega arith)

  setup-Ends :
      (host_name : List ℕ) (server_port : ℕ) (calls : List Call) (n : ℕ)
      → HasFree calls
      → length calls + 1 < n
      → Ends (Fresh calls) n (setup_udp_client_to_server sys host_name server_port calls)
  unfolding setup_udp_client_to_server
  setup-Ends host_name server_port calls n free room =
      then-Ends _ (Fresh calls) n _ (must sys failure new_socket calls)
        (must_socket-Ends _ calls n free refl room)
        λ v made h.
          found-Ends sys (Fresh calls) n
            (gethostbyname6 sys host_name (some (own_address server_port))) made _
            (rw (h.2) (omega arith))
            λ ip a e. (h.0, rw (h.2) (h.1), rw (h.2) refl, rw (h.2) refl, rw (h.2) (omega arith))

  -- start opens the first socket.
  abbrev pub Started : List Call → Connection → List Call → Type 0
  Started calls c made =
      AsksOnly (c.0) (c.2)
      × (newest sys made ≡ some (c.0))
      × (opened made ≡ opened calls + 1)
      × (closed made ≡ closed calls)
      × (length made ≡ length calls + 2)

  entered-Ends :
      (s : ℕ) (a : Address) (p : PollSet) (calls made : List Call) (n : ℕ)
      → Fresh calls (s, a) made
      → p.max_file_descriptor ≤ poll_set_size
      → Ends (Started calls) n (entered s a (add_to_poll_set s (setup_poll_set p)) made)
  entered-Ends s a p calls made n h within =
      let (q, e, only) = added-AsksOnly s p (h.0) within in rw e (only, h.1, h.2, h.3, h.4)

  start-Ends :
      (p : PollSet) (calls : List Call) (n : ℕ)
      → p.max_file_descriptor ≤ poll_set_size
      → HasFree calls
      → length calls + 1 < n
      → Ends (Started calls) n (start sys argv p calls)
  unfolding start
  start-Ends p calls n within free room =
      then-Ends (Fresh calls) (Started calls) n _
        (setup_udp_client_to_server sys (arg argv 6) (atoi (arg argv 7)) calls)
        (setup-Ends (arg argv 6) (atoi (arg argv 7)) calls n free room)
        λ r made h. entered-Ends (r.0) (r.1) p calls made n h within

  -- What holds once so many attempts more have had no answer.
  abbrev pub Reopened : ℕ → List Call → Connection → List Call → Type 0
  Reopened n calls c made =
      AsksOnly (c.0) (c.2)
      × (newest sys made ≡ some (c.0))
      × (opened made ≡ opened calls + n)
      × (closed made ≡ closed calls + n)
      × (length made ≡ length calls + 3 * n)

  Started-Reopened :
      (calls : List Call) (s n : ℕ) (o : Ending Connection)
      → Ends (Started (Call.close s ∷ calls)) n o
      → Ends (Reopened 1 calls) n o
  Started-Reopened calls s n (done c made) h =
      (h.0, h.1, omega (arith, h.2), omega (arith, h.3), omega (arith, h.4))
  Started-Reopened calls s n (exits status made) h = h

  reopen-Ends :
      (c : Connection) (calls : List Call) (n : ℕ)
      → AsksOnly (c.0) (c.2)
      → length calls + 2 < n
      → Ends (Reopened 1 calls) n (reopen sys argv c calls)
  unfolding reopen remove_from_poll_set
  reopen-Ends (s, a, p) calls n only room = Started-Reopened calls s n _ (
      then-Ends (Fresh (Call.close s ∷ calls)) (Started (Call.close s ∷ calls)) n _
        (setup_udp_client_to_server sys (arg argv 6) (atoi (arg argv 7)) (Call.close s ∷ calls))
        (setup-Ends (arg argv 6) (atoi (arg argv 7)) (Call.close s ∷ calls) n
          (
            s,
            omega (arith, only.seen, only.ready.within, only.size),
            closed_free sys inherited calls s,
          )
          (omega arith))
        λ r made h.
          entered-Ends (r.0) (r.1) (remove_from_poll_set s p) (Call.close s ∷ calls) made n h
            (omega (arith, only.ready.within, only.size)))

  unanswered-Ends :
      (count : ℕ) (c : Connection) (calls : List Call) (n : ℕ)
      → count + 1 < max_tries
      → AsksOnly (c.0) (c.2)
      → length calls + 2 < n
      → Ends (Reopened 1 calls) n (unanswered sys argv count c calls)
  unfolding unanswered
  unanswered-Ends count c calls n few only room =
      rw (==-ne (count + 1) max_tries (λ e. omega arith)) (reopen-Ends c calls n only room)

  Ends-later :
      (n : ℕ) (calls made : List Call) (o : Ending Connection)
      → (opened made ≡ opened calls + 1)
        × (closed made ≡ closed calls + 1)
        × (length made ≡ length calls + 3 * 1)
      → Ends (Reopened n made) (length made + 3 * n) o
      → Ends (Reopened (suc n) calls) (length calls + 3 * suc n) o
  Ends-later n calls made (done c' made') h e =
      (e.0, e.1, omega (arith, h, e.2), omega (arith, h, e.3), omega (arith, h, e.4))
  Ends-later n calls made (exits status made') h e = (e.0, omega (arith, h, e.1))

  ask_sockets-Ends :
      (n count : ℕ) (c : Connection) (calls : List Call)
      → count + n < max_tries
      → AsksOnly (c.0) (c.2)
      → newest sys calls ≡ some (c.0)
      → Ends (Reopened n calls) (length calls + 3 * n) (ask_sockets sys argv n count c calls)
  unfolding ask_sockets
  ask_sockets-Ends zero count c calls few only new =
      (only, new, omega arith, omega arith, omega arith)
  ask_sockets-Ends (suc n) count c calls few only new =
      then-Ends (Reopened 1 calls) (Reopened (suc n) calls) (length calls + 3 * suc n) _
        (unanswered sys argv count c calls)
        (unanswered-Ends count c calls (length calls + 3 * suc n) (omega arith) only (omega arith))
        λ c' made h.
          Ends-later n calls made (ask_sockets sys argv n (count + 1) c' made) (h.2, h.3, h.4)
            (ask_sockets-Ends n (count + 1) c' made (omega arith) (h.0) (h.1))

  -- What holds behind start and so many attempts without an answer.
  abbrev pub HasReopened : ℕ → List Call → Connection → List Call → Type 0
  HasReopened n calls c made =
      AsksOnly (c.0) (c.2)
      × (newest sys made ≡ some (c.0))
      × (opened made ≡ opened calls + (n + 1))
      × (closed made ≡ closed calls + n)

  has-Ends :
      (n : ℕ) (calls made : List Call) (o : Ending Connection)
      → (opened made ≡ opened calls + 1)
        × (closed made ≡ closed calls)
        × (length made ≡ length calls + 2)
      → Ends (Reopened n made) (length made + 3 * n) o
      → Ends (HasReopened n calls) (length calls + 2 + 3 * n) o
  has-Ends n calls made (done c made') h e =
      (e.0, e.1, omega (arith, h, e.2), omega (arith, h, e.3))
  has-Ends n calls made (exits status made') h e = (e.0, omega (arith, h, e.1))

  -- start of rcopy, and then the sockets of filename over fewer than ten attempts without an
  -- answer, end with a poll set that asks for the socket that was opened last and for no other,
  -- whose array has the noted size and bounds the descriptors that `poll` looks at, and with one
  -- socket more opened than there were calls of close; or the process exits with a status other
  -- than 0, and has made fewer calls than a full course makes. The system gives a new socket the
  -- lowest descriptor that is not open, one below the size of a new poll set is not open at the
  -- start, and the highest descriptor of the set before does not exceed this size.
  pub sockets-AsksOnly :
      (n : ℕ) (p : PollSet) (calls : List Call)
      → n < max_tries
      → p.max_file_descriptor ≤ poll_set_size
      → HasFree calls
      → Ends
          (HasReopened n calls)
          (length calls + 2 + 3 * n)
          ((start sys argv p >>= λ c. ask_sockets sys argv n 0 c) calls)
  sockets-AsksOnly n p calls few within free =
      then-Ends (Started calls) (HasReopened n calls) (length calls + 2 + 3 * n) _
        (start sys argv p calls)
        (start-Ends p calls (length calls + 2 + 3 * n) within free (omega arith))
        λ c made h.
          has-Ends n calls made (ask_sockets sys argv n 0 c made) (h.2, h.3, h.4)
            (ask_sockets-Ends n 0 c made (omega arith) (h.0) (h.1))
