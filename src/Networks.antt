-- ===== src/Networks.antt =====
-- project_3/networks.c: the sockets of clients and servers.
pub mod Order
use remotecopy.Base.{
  ℕ, ◌%◌, ◌==◌, Bool, true, false, Option, none, some, List, [], ◌∷◌, ◌++◌, if◌then◌else◌,
}
use remotecopy.Posix.{
  Address, Call, Posix, Process, ◌>>=◌, ◌>>◌, pure, exit, failure, attempt, must, htons, ntohs,
}
use remotecopy.Lookup.{af_inet6, gethostbyname6, get_ip_address_string6}

abbrev pub sock_stream : ℕ
sock_stream = 1

abbrev pub sock_dgram : ℕ
sock_dgram = 2

abbrev pub listen_backlog : ℕ
listen_backlog = 10

-- `in6addr_any`.
abbrev pub any_addr : List ℕ
any_addr = 0 ∷ 0 ∷ 0 ∷ 0 ∷ 0 ∷ 0 ∷ 0 ∷ 0 ∷ 0 ∷ 0 ∷ 0 ∷ 0 ∷ 0 ∷ 0 ∷ 0 ∷ 0 ∷ []

-- The structure once it has been cleared and a port set; a server that is looked up overwrites `addr`.
abbrev pub own_address : ℕ → Address
own_address server_port = record { family = af_inet6; port = htons server_port; addr = any_addr }

module _ (sys : Posix) where
  abbrev pub print : List ℕ → Process (Option ℕ)
  print text = attempt sys (Call.print text)

  -- The answer of `getsockname` is the port that it fills in.
  unfoldable pub tcp_server_setup : ℕ → Process ℕ
  tcp_server_setup server_port = do
    s ← must sys 1 (Call.socket af_inet6 sock_stream)
    must sys failure (Call.bind s (own_address server_port))
    port ← must sys failure (Call.getsockname s)
    must sys failure (Call.listen s listen_backlog)
    print (port ∷ [])
    pure s

  abbrev pub peer_text : Address → List ℕ
  peer_text a = get_ip_address_string6 sys (some a.addr) ++ ntohs a.port ∷ []

  unfoldable pub tcp_accept : ℕ → Bool → Process ℕ
  tcp_accept main_server_socket debug_flag = do
    client ← must sys failure (Call.accept main_server_socket)
    (if debug_flag then print (peer_text (sys.peer client)) else pure none)
    pure client

  -- The address of a server that has been looked up, or the end of the process.
  abbrev pub found : Option (List ℕ) × Option Address → Process (List ℕ × Address)
  found (some ip, some a) = pure (ip, a)
  found (_, _) = exit failure

  -- `server_port` is the value of `atoi`.
  unfoldable pub tcp_client_setup : List ℕ → ℕ → Bool → Process ℕ
  unfolding gethostbyname6 get_ip_address_string6
  tcp_client_setup server_name server_port debug_flag = do
    s ← must sys failure (Call.socket af_inet6 sock_stream)
    r ← found (gethostbyname6 sys server_name (some (own_address server_port)))
    must sys failure (Call.connect s (r.1))
    (if debug_flag
        then print (get_ip_address_string6 sys (some (r.0)) ++ server_port ∷ [])
        else pure none)
    pure s

  -- A port that `getsockname` cannot tell is printed as it was asked for.
  abbrev pub port_of : ℕ → Option ℕ → ℕ
  port_of server_port none = server_port % 65536
  port_of server_port (some port) = port

  unfoldable pub udp_server_setup : ℕ → Process ℕ
  udp_server_setup server_port = do
    s ← must sys failure (Call.socket af_inet6 sock_dgram)
    must sys failure (Call.bind s (own_address server_port))
    port ← attempt sys (Call.getsockname s)
    print (port_of server_port port ∷ [])
    pure s

  unfoldable pub setup_udp_client_to_server : List ℕ → ℕ → Process (ℕ × Address)
  unfolding gethostbyname6
  setup_udp_client_to_server host_name server_port = do
    s ← must sys failure (Call.socket af_inet6 sock_dgram)
    r ← found (gethostbyname6 sys host_name (some (own_address server_port)))
    print (sys.inet_ntop af_inet6 (r.0) ++ server_port ∷ [])
    pure (s, r.1)
