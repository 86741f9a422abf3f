-- ===== src/Lookup.antt =====
-- project_3/gethostbyname.c: the first address of a host, and addresses as text.
use remotecopy.Base.{ℕ, ◌==◌, Option, none, some, List, [], ◌∷◌, ◌++◌, take, if◌then◌else◌}
use remotecopy.Posix.{Address, Posix, ntohs}

-- AF_INET and AF_INET6.
abbrev pub af_inet : ℕ
af_inet = 2

abbrev pub af_inet6 : ℕ
af_inet6 = 10

-- "(IP not found)"
abbrev pub not_found : List ℕ
not_found = 40 ∷ 73 ∷ 80 ∷ 32 ∷ 110 ∷ 111 ∷ 116 ∷ 32 ∷ 102 ∷ 111 ∷ 117 ∷ 110 ∷ 100 ∷ 41 ∷ []

-- The number of bytes of an address that are copied.
abbrev pub address_length : ℕ → ℕ
address_length family = if family == af_inet then 4 else 16

-- A line that gethostbyname_test_lookup prints: a host and its address as a text, or an empty one.
pub data Printed : Type 0 where
  host6 host4 : List ℕ → List ℕ → Printed
  newline : Printed

module _ (sys : Posix) where
  -- The address that is returned, or NULL, and the structure, whose address is overwritten.
  unfoldable pub get_ip_address46 : List ℕ → Address → ℕ → Option (List ℕ) × Address
  get_ip_address46 host_name a family = elim (sys.getaddrinfo family host_name) [
    | none ↦ (none, a)
    | some bytes ↦ let ip = take (address_length family) bytes in (some ip, record a { addr = ip })
  ]

  -- `none` is the pointer NULL, for which a structure on the stack is used.
  abbrev pub fill : Option Address → Address
  fill none = record { family = 0; port = []; addr = [] }
  fill (some a) = a

  abbrev pub given : Option Address → Address → Option Address
  given none b = none
  given (some a) b = some b

  unfoldable pub gethostbyname4 : List ℕ → Option Address → Option (List ℕ) × Option Address
  unfolding get_ip_address46
  gethostbyname4 host_name a =
      let (ip, b) = get_ip_address46 host_name (fill a) af_inet in (ip, given a b)

  unfoldable pub gethostbyname6 : List ℕ → Option Address → Option (List ℕ) × Option Address
  unfolding get_ip_address46
  gethostbyname6 host_name a =
      let (ip, b) = get_ip_address46 host_name (fill a) af_inet6 in (ip, given a b)

  unfoldable pub get_ip_address_string46 : Option (List ℕ) → ℕ → List ℕ
  get_ip_address_string46 none family = not_found
  get_ip_address_string46 (some ip) family = sys.inet_ntop family ip

  unfoldable pub get_ip_address_string4 : Option (List ℕ) → List ℕ
  unfolding get_ip_address_string46
  get_ip_address_string4 ip = get_ip_address_string46 ip af_inet

  unfoldable pub get_ip_address_string6 : Option (List ℕ) → List ℕ
  unfolding get_ip_address_string46
  get_ip_address_string6 ip = get_ip_address_string46 ip af_inet6

  unfoldable pub ip_address_to_string : Address → List ℕ
  ip_address_to_string a = sys.inet_ntop af_inet6 a.addr

  -- What is printed: the address and the port.
  unfoldable pub print_ip_info : Address → List ℕ × ℕ
  unfolding ip_address_to_string
  print_ip_info a = (ip_address_to_string a, ntohs a.port)

  -- What is printed for a host: the lines for its addresses of the two families, if they are found,
  -- and an empty one.
  abbrev line : (List ℕ → Printed) → Option (List ℕ) → List ℕ → List Printed
  line label none text = []
  line label (some ip) text = label text ∷ []

  unfoldable pub gethostbyname_test_lookup : List ℕ → List Printed
  unfolding gethostbyname6 gethostbyname4 get_ip_address_string6 get_ip_address_string4
  gethostbyname_test_lookup host_name =
      let ip6 = (gethostbyname6 host_name none).0 in
      let ip4 = (gethostbyname4 host_name none).0 in
      line (Printed.host6 host_name) ip6 (get_ip_address_string6 ip6)
      ++ line (Printed.host4 host_name) ip4 (get_ip_address_string4 ip4)
      ++ newline ∷ []

  -- "www.google.com"
  abbrev www_google_com : List ℕ
  www_google_com =
      119 ∷ 119 ∷ 119 ∷ 46 ∷ 103 ∷ 111 ∷ 111 ∷ 103 ∷ 108 ∷ 101 ∷ 46 ∷ 99 ∷ 111 ∷ 109 ∷ []

  -- "ipv6.google.com"
  abbrev ipv6_google_com : List ℕ
  ipv6_google_com =
      105 ∷ 112 ∷ 118 ∷ 54 ∷ 46 ∷ 103 ∷ 111 ∷ 111 ∷ 103 ∷ 108 ∷ 101 ∷ 46 ∷ 99 ∷ 111 ∷ 109 ∷ []

  -- "my.calpoly.edu"
  abbrev my_calpoly_edu : List ℕ
  my_calpoly_edu =
      109 ∷ 121 ∷ 46 ∷ 99 ∷ 97 ∷ 108 ∷ 112 ∷ 111 ∷ 108 ∷ 121 ∷ 46 ∷ 101 ∷ 100 ∷ 117 ∷ []

  -- "does not exist"
  abbrev does_not_exist : List ℕ
  does_not_exist =
      100 ∷ 111 ∷ 101 ∷ 115 ∷ 32 ∷ 110 ∷ 111 ∷ 116 ∷ 32 ∷ 101 ∷ 120 ∷ 105 ∷ 115 ∷ 116 ∷ []

  -- What is printed for the four hosts.
  unfoldable pub gethostbyname_test : List Printed
  unfolding gethostbyname_test_lookup
  gethostbyname_test =
      gethostbyname_test_lookup www_google_com
      ++ gethostbyname_test_lookup ipv6_google_com
      ++ gethostbyname_test_lookup my_calpoly_edu
      ++ gethostbyname_test_lookup does_not_exist
