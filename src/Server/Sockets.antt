-- ===== src/Server/Sockets.antt =====
-- The sockets of project_3/server.c: the one of the parent process, which is in the poll set, and the
-- one of a child, which is not entered into the set that the child has from its parent.
mod Tests
use remotecopy.Base.{
  ℕ, zero, suc, ◌+◌, ◌≤◌, ◌<◌, ◌≡◌, ◌≢◌, refl, sym, ap, ◌∙◌, subst, Bool, true, false, ◌||◌, Option,
  none, some, List, [], ◌∷◌, ◌++◌, All, length, arith, ltb, ◌==◌, if◌then◌else◌,
}
use remotecopy.Posix.Descriptors.{new_socket, newest, gives, is_open, GivesLowest, again-same}
use remotecopy.Posix.{
  Address, Call, Posix, Process, Ending, done, exits, failure, must, attempt, pure, exit, ◌>>=◌,
}
use remotecopy.Base.Atoi.{atoi}
use remotecopy.Lookup.{af_inet6}
use remotecopy.Networks.{sock_dgram, own_address, port_of, udp_server_setup}
use remotecopy.Networks.Order.{Ends, Ends-weaken, must-Ends, then-Ends}
use remotecopy.PollSet.{PollSet, poll_set_size, setup_poll_set, add_to_poll_set}
use remotecopy.PollSet.Alone.{AsksOnly, added-AsksOnly}
use remotecopy.Server.Parent.{Rates, arg, check_args, entered, listening, open_child}

-- The calls after `socket` that set up an UDP socket, the newest first.
abbrev pub bound : ℕ → ℕ → ℕ → List Call
bound server_port port s =
    Call.print (port ∷ []) ∷ Call.getsockname s ∷ Call.bind s (own_address server_port) ∷ []

module _ (sys : Posix) where
  -- What udp_server_setup has done.
  abbrev SetUp : ℕ → List Call → ℕ → List Call → Type 0
  SetUp server_port calls s made =
      (port : ℕ) × (sys.perform calls new_socket ≡ some s)
      × (made ≡ bound server_port port s ++ new_socket ∷ calls)

  socket-Ends :
      (o : Option ℕ) (calls : List Call) (n : ℕ)
      → sys.perform calls new_socket ≡ o
      → length calls + 1 < n
      → Ends
          (λ s made. (sys.perform calls new_socket ≡ some s) × (made ≡ new_socket ∷ calls))
          n
          (elim o [
            | some v ↦ done v (new_socket ∷ calls)
            | none ↦ exits failure (new_socket ∷ calls)
          ])
  socket-Ends (some v) calls n e room = (e, refl)
  socket-Ends none calls n e room = ((λ q. omega arith), omega arith)

  udp_server_setup-Ends :
      (server_port : ℕ) (calls : List Call) (n : ℕ)
      → length calls + 2 < n
      → Ends (SetUp server_port calls) n (udp_server_setup sys server_port calls)
  unfolding udp_server_setup
  udp_server_setup-Ends server_port calls n room =
      then-Ends _ (SetUp server_port calls) n _ (must sys failure new_socket calls)
        (socket-Ends _ calls n refl (omega arith))
        λ s made h.
          must-Ends sys (SetUp server_port calls) n failure (Call.bind s (own_address server_port))
            made _ (λ e. omega arith) (rw (h.1) (omega arith))
            λ v. (
              port_of sys server_port
                  (sys.perform (Call.bind s (own_address server_port) ∷ made) (Call.getsockname s)),
              h.0,
              ap
                  (λ m.
                    bound server_port
                      (port_of sys server_port (
                        sys.perform (Call.bind s (own_address server_port) ∷ made)
                          (Call.getsockname s)))
                      s
                    ++ m)
                  (h.1),
            )

-- Setting up a socket opens its descriptor and no other.
setup-is_open :
    (sys : Posix) (inherited : ℕ → Bool) (server_port port s : ℕ) (calls made : List Call) (m : ℕ)
    → sys.perform calls new_socket ≡ some s
    → made ≡ bound server_port port s ++ new_socket ∷ calls
    → is_open sys inherited made m ≡ (gives (some s) m || is_open sys inherited calls m)
setup-is_open sys inherited server_port port s calls made m e q =
    ap (λ l. is_open sys inherited l m) q ∙ ap (λ o. gives o m || is_open sys inherited calls m) e

setup-newest :
    (sys : Posix) (server_port port s : ℕ) (calls made : List Call)
    → sys.perform calls new_socket ≡ some s
    → made ≡ bound server_port port s ++ new_socket ∷ calls
    → newest sys made ≡ some s
setup-newest sys server_port port s calls made e q = ap (newest sys) q ∙ e

module _ (sys : Posix) (rates : Rates) (argv : List (List ℕ)) (inherited : ℕ → Bool)
    (law : GivesLowest sys inherited) where
  -- The set asks for the socket that has been set up, after the calls that were made.
  abbrev Listens : List Call → ℕ × PollSet → List Call → Type 0
  Listens calls c made =
      AsksOnly (c.0) (c.1) × ((server_port : ℕ) × SetUp sys server_port calls (c.0) made)

  -- A descriptor below the size of a new poll set is not open.
  abbrev pub HasFree : List Call → Type 0
  HasFree calls = (free : ℕ) × (free < poll_set_size) × (is_open sys inherited calls free ≡ false)

  check_args-Ends :
      (calls : List Call) (n : ℕ)
      → length calls < n
      → Ends (λ port made. made ≡ calls) n (check_args rates argv calls)
  unfolding check_args
  check_args-Ends calls n room =
      test (ltb (length argv) 2 || ltb 3 (length argv))
        (rates.below_zero (arg argv 1) || rates.at_least_one (arg argv 1)) (length argv == 3)
    where
      test :
          (b c d : Bool)
          → Ends
              (λ port made. made ≡ calls)
              n
              ((if b
                  then exit 1
                  else if c
                  then exit 1
                  else if d
                  then pure (atoi (arg argv 2))
                  else pure 0)
                calls)
      test true c d = ((λ e. omega arith), room)
      test false true d = ((λ e. omega arith), room)
      test false false true = refl
      test false false false = refl

  entered-Ends :
      (s : ℕ) (p : PollSet) (server_port : ℕ) (calls made : List Call) (n : ℕ)
      → SetUp sys server_port calls s made
      → HasFree calls
      → p.max_file_descriptor ≤ poll_set_size
      → Ends (Listens calls) n (entered s (add_to_poll_set s (setup_poll_set p)) made)
  entered-Ends s p server_port calls made n h (free, lt, q') within =
      let (q, e, only) =
        added-AsksOnly s p (omega (arith, lt, law.lowest calls s free (h.1) q')) within in
      rw e (only, (server_port, h))

  listening-Ends :
      (p : PollSet) (calls : List Call) (n : ℕ)
      → p.max_file_descriptor ≤ poll_set_size
      → HasFree calls
      → length calls + 2 < n
      → Ends (Listens calls) n (listening sys rates argv p calls)
  unfolding listening
  listening-Ends p calls n within free room =
      then-Ends (λ port made. made ≡ calls) (Listens calls) n _ (check_args rates argv calls)
        (check_args-Ends calls n (omega arith))
        λ port made e.
          then-Ends (SetUp sys port calls) (Listens calls) n _ (udp_server_setup sys port made)
            (rw e (udp_server_setup-Ends sys port calls n room))
            λ s made' h. entered-Ends s p port calls made' n h free within

  open_child-Ends :
      (s : ℕ) (p : PollSet) (calls made : List Call) (n : ℕ)
      → Listens calls (s, p) made
      → length calls + 7 < n
      → Ends (λ s' made'. AsksOnly s' p × (newest sys made' ≡ some s')) n (open_child sys s made)
  unfolding open_child
  open_child-Ends s p calls made n (only, (server_port, (port, e, q))) room =
      Ends-weaken (SetUp sys 0 (Call.close s ∷ made))
        (λ s' made'. AsksOnly s' p × (newest sys made' ≡ some s')) n
        (udp_server_setup sys 0 (Call.close s ∷ made))
        (λ s' made' h. (
          subst (λ v. AsksOnly v p)
              (sym (
                again-same sys inherited law calls made s s' e
                  (λ m. setup-is_open sys inherited server_port port s calls made m e q) (h.1)))
              only,
          setup-newest sys 0 (h.0) s' (Call.close s ∷ made) made' (h.1) (h.2),
        ))
        (udp_server_setup-Ends sys 0 (Call.close s ∷ made) n (rw q (omega arith)))

  -- When main of the server has set up its socket and a child has closed it and opened its own, the
  -- poll set that the child has from its parent, to which the child adds nothing, asks for the
  -- child's socket, which was opened last, and for no other, with an array of the noted size that
  -- bounds the descriptors that `poll` looks at; or the process has exited with a status other than
  -- 0. The system gives a new socket the lowest descriptor that is not open, one below the size of
  -- a new poll set is not open at the start, and the highest descriptor of the set before does not
  -- exceed this size.
  pub child-AsksOnly :
      (p : PollSet) (calls : List Call)
      → p.max_file_descriptor ≤ poll_set_size
      → HasFree calls
      → Ends {A = ℕ × PollSet}
          (λ c made. AsksOnly (c.0) (c.1) × (newest sys made ≡ some (c.0)))
          (length calls + 8)
          ((listening sys rates argv p >>= λ c. open_child sys (c.0) >>= λ s. pure (s, c.1)) calls)
  child-AsksOnly p calls within free =
      then-Ends (Listens calls) Served (length calls + 8) _ (listening sys rates argv p calls)
        (listening-Ends p calls (length calls + 8) within free (omega arith))
        λ c made h.
          then-Ends (λ s' made'. AsksOnly s' (c.1) × (newest sys made' ≡ some s')) Served
            (length calls + 8) _ (open_child sys (c.0) made)
            (open_child-Ends (c.0) (c.1) calls made (length calls + 8) h (omega arith))
            λ s made' only. only
    where
      Served : ℕ × PollSet → List Call → Type 0
      Served c made = AsksOnly (c.0) (c.1) × (newest sys made ≡ some (c.0))
