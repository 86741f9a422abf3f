-- ===== src/Posix/Descriptors.antt =====
-- Which descriptors a process has open behind its system calls (project_3/networks.c), and the rule
-- by which a system chooses the descriptor of a new socket.
use remotecopy.Base.{
  ℕ, ◌≤◌, ◌≡◌, ◌≢◌, refl, Bool, false, ◌||◌, Option, none, some, List, [], ◌∷◌, ◌==◌, ==-ne, ==_iff,
  if◌then◌else◌, arith,
}
use native.Mathlib.Decide.{ℕ_discrete}
use remotecopy.Posix.{Call, Posix}
use remotecopy.Lookup.{af_inet6}
use remotecopy.Networks.{sock_dgram}

abbrev pub new_socket : Call
new_socket = Call.socket af_inet6 sock_dgram

-- Whether a call that opens a descriptor has given this one.
abbrev pub gives : Option ℕ → ℕ → Bool
gives none m = false
gives (some v) m = v == m

-- The descriptor that the newest `socket` of a process has given.
abbrev pub newest : Posix → List Call → Option ℕ
newest sys [] = none
newest sys (Call.socket f t ∷ calls) = sys.perform calls (Call.socket f t)
newest sys (_ ∷ calls) = newest sys calls

module _ (sys : Posix) (inherited : ℕ → Bool) where
  -- Whether a descriptor is open behind the calls, the newest first; `inherited` are those that were
  -- open before.
  abbrev pub is_open : List Call → ℕ → Bool
  is_open [] m = inherited m
  is_open (Call.socket f t ∷ calls) m =
      gives (sys.perform calls (Call.socket f t)) m || is_open calls m
  is_open (Call.accept s ∷ calls) m = gives (sys.perform calls (Call.accept s)) m || is_open calls m
  is_open (Call.close s ∷ calls) m = if m == s then false else is_open calls m
  is_open (_ ∷ calls) m = is_open calls m

  -- `socket` gives the lowest descriptor that is not open.
  pub record GivesLowest : Type 0 where
    pub fresh :
        (calls : List Call) (v : ℕ)
        → sys.perform calls new_socket ≡ some v
        → is_open calls v ≡ false
    pub lowest :
        (calls : List Call) (v m : ℕ)
        → sys.perform calls new_socket ≡ some v
        → is_open calls m ≡ false
        → v ≤ m

  pub closed_free : (calls : List Call) (s : ℕ) → is_open (Call.close s ∷ calls) s ≡ false
  closed_free calls s = rw ((==_iff s s).1 refl) refl

  pub still_free :
      (calls : List Call) (s v : ℕ)
      → v ≢ s
      → is_open (Call.close s ∷ calls) v ≡ false
      → is_open calls v ≡ false
  still_free calls s v ne e = ground (arith, ==-ne v s ne)

  -- The socket that is opened behind the close of another one, between which and its own opening no
  -- descriptor was opened or closed, has the number of that one.
  pub again-same :
      GivesLowest
      → (calls made : List Call) (s v : ℕ) → sys.perform calls new_socket ≡ some s
      → ((m : ℕ) → is_open made m ≡ (gives (some s) m || is_open calls m))
      → sys.perform (Call.close s ∷ made) new_socket ≡ some v
      → v ≡ s
  again-same law calls made s v e same q = elim (ℕ_discrete v s) [
    | yes w ↦ w
    | no ne ↦ absurd (
        omega (
          arith,
          ne,
          law.lowest (Call.close s ∷ made) v s q (closed_free made s),
          law.lowest calls s v e (before ne (same v)),
        ))
  ]
    where
      before :
          v ≢ s → is_open made v ≡ (gives (some s) v || is_open calls v) → is_open calls v ≡ false
      before ne r = ground (arith, still_free made s v ne (law.fresh (Call.close s ∷ made) v q))
