-- ===== src/Posix/Example.antt =====
-- A system that gives the descriptor 3 while it is free, and none otherwise: 0, 1 and 2 are open from
-- the start, and once one of them has been closed there is no socket any more.
use remotecopy.Base.{
  ℕ, ◌≤◌, ◌<◌, ◌≡◌, ◌∙◌, refl, Bool, true, false, ◌||◌, Option, none, some, List, [], ◌∷◌, ◌==◌,
  ltb, if◌then◌else◌, arith,
}
use remotecopy.Posix.{Call, Posix}
use remotecopy.Networks.{own_address}
use remotecopy.Posix.Descriptors.{new_socket, is_open, GivesLowest}

-- Whether one of the first three was closed.
abbrev low_closed : List Call → Bool
low_closed [] = false
low_closed (Call.close s ∷ calls) = ltb s 3 || low_closed calls
low_closed (_ ∷ calls) = low_closed calls

abbrev taken : List Call → Bool
taken [] = false
taken (Call.close s ∷ calls) = if 3 == s then false else taken calls
taken (Call.socket f t ∷ calls) = if low_closed calls then taken calls else true
taken (_ ∷ calls) = taken calls

abbrev performed : List Call → Call → Option ℕ
performed calls (Call.socket f t) = if low_closed calls || taken calls then none else some 3
performed calls (Call.accept s) = none
performed calls _ = some 0

abbrev pub system : Posix
system = record {
  perform = performed;
  getaddrinfo = λ family name. some (0 ∷ 1 ∷ []);
  inet_ntop = λ family bytes. bytes;
  peer = λ s. own_address 0;
}

abbrev pub inherited : ℕ → Bool
inherited m = ltb m 3

is_open-taken : (calls : List Call) → is_open system inherited calls 3 ≡ taken calls
is_open-taken [] = refl
is_open-taken (Call.socket f t ∷ calls) = ground (arith, is_open-taken calls)
is_open-taken (Call.accept s ∷ calls) = is_open-taken calls
is_open-taken (Call.close s ∷ calls) = ground (arith, is_open-taken calls)
is_open-taken (Call.bind s a ∷ calls) = is_open-taken calls
is_open-taken (Call.getsockname s ∷ calls) = is_open-taken calls
is_open-taken (Call.listen s n ∷ calls) = is_open-taken calls
is_open-taken (Call.connect s a ∷ calls) = is_open-taken calls
is_open-taken (Call.recvfrom s n f ∷ calls) = is_open-taken calls
is_open-taken (Call.sendto s b f a ∷ calls) = is_open-taken calls
is_open-taken (Call.recv s n f ∷ calls) = is_open-taken calls
is_open-taken (Call.send s b f ∷ calls) = is_open-taken calls
is_open-taken (Call.realloc m n ∷ calls) = is_open-taken calls
is_open-taken (Call.calloc m n ∷ calls) = is_open-taken calls
is_open-taken (Call.print t ∷ calls) = is_open-taken calls

is_open-low :
    (calls : List Call) (m : ℕ)
    → m < 3
    → low_closed calls ≡ false
    → is_open system inherited calls m ≡ true
is_open-low [] m h e = ground arith
is_open-low (Call.socket f t ∷ calls) m h e = ground (arith, is_open-low calls m h)
is_open-low (Call.accept s ∷ calls) m h e = is_open-low calls m h e
is_open-low (Call.close s ∷ calls) m h e = ground (arith, is_open-low calls m h)
is_open-low (Call.bind s a ∷ calls) m h e = is_open-low calls m h e
is_open-low (Call.getsockname s ∷ calls) m h e = is_open-low calls m h e
is_open-low (Call.listen s n ∷ calls) m h e = is_open-low calls m h e
is_open-low (Call.connect s a ∷ calls) m h e = is_open-low calls m h e
is_open-low (Call.recvfrom s n f ∷ calls) m h e = is_open-low calls m h e
is_open-low (Call.sendto s b f a ∷ calls) m h e = is_open-low calls m h e
is_open-low (Call.recv s n f ∷ calls) m h e = is_open-low calls m h e
is_open-low (Call.send s b f ∷ calls) m h e = is_open-low calls m h e
is_open-low (Call.realloc o n ∷ calls) m h e = is_open-low calls m h e
is_open-low (Call.calloc o n ∷ calls) m h e = is_open-low calls m h e
is_open-low (Call.print t ∷ calls) m h e = is_open-low calls m h e

performed-three :
    (calls : List Call) (v : ℕ)
    → performed calls new_socket ≡ some v
    → (v ≡ 3) × (low_closed calls ≡ false) × (taken calls ≡ false)
performed-three calls v e = ground arith

low_or :
    (calls : List Call) (m : ℕ)
    → low_closed calls ≡ false
    → is_open system inherited calls m ≡ false
    → 3 ≤ m
low_or calls m l e = ground (arith, is_open-low calls m)

pub law : GivesLowest system inherited
law = record {
  fresh = λ calls v e. let (q, l, t) = performed-three calls v e in rw q (is_open-taken calls ∙ t);
  lowest = λ calls v m e o. let (q, l, t) = performed-three calls v e in rw q (low_or calls m l o);
}
