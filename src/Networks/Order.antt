-- ===== src/Networks/Order.antt =====
-- In which order project_3/networks.c sets up a socket, and how it fails.
use remotecopy.Base.{
  ℕ, ◌+◌, ◌<◌, ◌≡◌, ◌≢◌, refl, Option, none, some, List, [], ◌∷◌, ◌++◌, length, arith,
}
use remotecopy.Posix.{Address, Call, Posix, Process, Ending, done, exits, failure, must, ◌>>=◌}
use remotecopy.Lookup.{af_inet6, gethostbyname6}
use remotecopy.Networks.{
  sock_dgram, sock_stream, listen_backlog, own_address, found, tcp_server_setup,
  setup_udp_client_to_server,
}

-- A set-up that ends well has made the calls that `P` says; one that fails exits with another status
-- than 0, and has made fewer than `n` calls.
abbrev pub Ends : {A : Type 0} → (A → List Call → Type 0) → ℕ → Ending A → Type 0
Ends P n (done a made) = P a made
Ends P n (exits status made) = (status ≢ 0) × (length made < n)

module _ (sys : Posix) {A : Type 0} (P : A → List Call → Type 0) (n : ℕ) where
  pub must-Ends :
      (status : ℕ) (c : Call) (calls : List Call) (k : ℕ → Process A)
      → status ≢ 0
      → length calls + 1 < n
      → ((v : ℕ) → Ends P n (k v (c ∷ calls)))
      → Ends P n ((must sys status c >>= k) calls)
  must-Ends status c calls k ne room go =
      elim (sys.perform calls c)
        as (λ o. Ends P n (
          ◌>>=◌ (λ _. elim o [ some v ↦ done v (c ∷ calls) | none ↦ exits status (c ∷ calls) ]) k
            calls)) [ some v ↦ go v | none ↦ (ne, omega arith) ]

  pub found-Ends :
      (r : Option (List ℕ) × Option Address) (calls : List Call)
      → (k : List ℕ × Address → Process A) → length calls < n
      → ((ip : List ℕ) (a : Address) → r ≡ (some ip, some a) → Ends P n (k (ip, a) calls))
      → Ends P n ((found sys r >>= k) calls)
  found-Ends (none, none) calls k room go = ((λ e. omega arith), room)
  found-Ends (none, some a) calls k room go = ((λ e. omega arith), room)
  found-Ends (some ip, none) calls k room go = ((λ e. omega arith), room)
  found-Ends (some ip, some a) calls k room go = go ip a refl

module _ {A B : Type 0} (P : A → List Call → Type 0) (Q : B → List Call → Type 0) (n : ℕ)
    (f : A → Process B) where
  pub then-Ends :
      (o : Ending A)
      → Ends P n o
      → ((a : A) (made : List Call) → P a made → Ends Q n (f a made))
      → Ends Q n (elim o [ done a made ↦ f a made | exits status made ↦ exits status made ])
  then-Ends (done a made) h go = go a made h
  then-Ends (exits status made) h go = h

module _ {A : Type 0} (P Q : A → List Call → Type 0) (n : ℕ) where
  pub Ends-weaken :
      (o : Ending A) → ((a : A) (made : List Call) → P a made → Q a made) → Ends P n o → Ends Q n o
  Ends-weaken (done a made) go h = go a made h
  Ends-weaken (exits status made) go h = h

-- The calls that tcp_server_setup makes for a socket, the newest first.
abbrev serving : ℕ → ℕ → ℕ → List Call
serving server_port port s =
    Call.print (port ∷ [])
    ∷ Call.listen s listen_backlog
    ∷ Call.getsockname s
    ∷ Call.bind s (own_address server_port)
    ∷ Call.socket af_inet6 sock_stream
    ∷ []

-- tcpServerSetup either returns a socket, after socket, bind to the port, getsockname, listen and
-- the message, in this order and nothing else; or it exits with a status other than 0, before all
-- of these calls have been made.
tcp_server_setup-Ends :
    (sys : Posix) (server_port : ℕ) (calls : List Call)
    → Ends
        (λ s made. (port : ℕ) × (made ≡ serving server_port port s ++ calls))
        (length calls + 5)
        (tcp_server_setup sys server_port calls)
unfolding tcp_server_setup
tcp_server_setup-Ends sys server_port calls =
    must-Ends sys _ _ 1 _ calls _ (λ e. omega arith) (omega arith)
      λ s.
        must-Ends sys _ _ failure _ _ _ (λ e. omega arith) (omega arith)
          λ _.
            must-Ends sys _ _ failure _ _ _ (λ e. omega arith) (omega arith)
              λ port.
                must-Ends sys _ _ failure _ _ _ (λ e. omega arith) (omega arith) λ _. (port, refl)

-- setupUdpClientToServer either returns a socket and the address that gethostbyname6 fills in for
-- the host, after socket and the message; or it exits with a status other than 0, with no message.
setup_udp_client_to_server-Ends :
    (sys : Posix) (host_name : List ℕ) (server_port : ℕ) (calls : List Call)
    → Ends
        (λ r made.
          (ip : List ℕ) × (gethostbyname6 sys host_name (some (own_address server_port))
            ≡ (some ip, some (r.1)))
          × (made
              ≡ Call.print (sys.inet_ntop af_inet6 ip ++ server_port ∷ [])
                ∷ Call.socket af_inet6 sock_dgram
                ∷ calls))
        (length calls + 2)
        (setup_udp_client_to_server sys host_name server_port calls)
unfolding setup_udp_client_to_server
setup_udp_client_to_server-Ends sys host_name server_port calls =
    must-Ends sys _ _ failure _ calls _ (λ e. omega arith) (omega arith)
      λ s.
        found-Ends sys _ _ (gethostbyname6 sys host_name (some (own_address server_port))) _ _
          (omega arith) (λ ip a e. (ip, e, refl))
