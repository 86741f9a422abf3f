-- ===== src/Posix.antt =====
-- The system calls that project_3/networks.c, safeUtil.c, myClient.c and myServer.c make, and the
-- end of a process. What the system answers is a parameter.
pub mod Descriptors
pub mod Example
use remotecopy.Base.{ℕ, ◌+◌, ◌*◌, ◌/◌, ◌%◌, Option, none, some, List, [], ◌∷◌, slt, if◌then◌else◌}

-- The fields of a `struct sockaddr_in6` that are set; the port is in network order.
pub record Address : Type 0 where
  pub family : ℕ
  pub port : List ℕ
  pub addr : List ℕ

-- A system call with its arguments. A buffer that is sent is a list of bytes; `print` is the numbers
-- or the characters that a `printf` is given.
pub data Call : Type 0 where
  socket : ℕ → ℕ → Call
  bind : ℕ → Address → Call
  getsockname : ℕ → Call
  listen : ℕ → ℕ → Call
  accept : ℕ → Call
  connect : ℕ → Address → Call
  close : ℕ → Call
  recvfrom : ℕ → ℕ → ℕ → Call
  sendto : ℕ → List ℕ → ℕ → Address → Call
  recv : ℕ → ℕ → ℕ → Call
  send : ℕ → List ℕ → ℕ → Call
  realloc : ℕ → ℕ → Call
  calloc : ℕ → ℕ → Call
  print : List ℕ → Call

-- What a call returns, given the calls before it, the newest first; `none` is a result below zero, or
-- NULL. `getaddrinfo` is asked for a family: `none` is an error, otherwise the first address.
-- `inet_ntop` prints an address of a family; `peer` is the address that `accept` fills in for a socket.
pub record Posix : Type 0 where
  pub perform : List Call → Call → Option ℕ
  pub getaddrinfo : ℕ → List ℕ → Option (List ℕ)
  pub inet_ntop : ℕ → List ℕ → List ℕ
  pub peer : ℕ → Address

-- How a part of a process ends, with all calls made so far.
pub data Ending (A : Type 0) : Type 0 where
  done : A → List Call → Ending A
  exits : ℕ → List Call → Ending A

abbrev pub Process : Type 0 → Type 0
Process A = List Call → Ending A

infixl 5 ◌>>=◌ ◌>>◌
abbrev pub ◌>>=◌ : {A B : Type 0} → Process A → (A → Process B) → Process B
◌>>=◌ m f calls = elim (m calls) [ done a calls' ↦ f a calls' | exits c calls' ↦ exits c calls' ]

abbrev pub ◌>>◌ : {A B : Type 0} → Process A → Process B → Process B
m >> k = m >>= λ _. k

abbrev pub pure : {A : Type 0} → A → Process A
pure a calls = done a calls

-- `exit`; -1 is the status 255.
abbrev pub exit : {A : Type 0} → ℕ → Process A
exit status calls = exits status calls

abbrev pub failure : ℕ
failure = 255

module _ (sys : Posix) where
  -- A call whose result is not tested.
  abbrev pub attempt : Call → Process (Option ℕ)
  attempt c calls = done (sys.perform calls c) (c ∷ calls)

  -- A call whose error ends the process with a status.
  abbrev pub must : ℕ → Call → Process ℕ
  must status c calls = elim (sys.perform calls c) [
    | some n ↦ done n (c ∷ calls)
    | none ↦ exits status (c ∷ calls)
  ]

module _ (sys : Posix) where
  -- A descriptor is closed if it is above 0, as an `int`. What `perror` prints is not modelled.
  unfoldable pub close_positive : ℕ → Process (Unit {0})
  close_positive fd = if slt 0 fd then (attempt sys (Call.close fd) >>= λ _. pure tt) else pure tt

-- `htons` of an `int`, on a little-endian host.
abbrev pub htons : ℕ → List ℕ
htons n = n / 256 % 256 ∷ (n % 256) ∷ []

abbrev pub ntohs : List ℕ → ℕ
ntohs (a ∷ b ∷ _) = 256 * a + b
ntohs _ = 0
