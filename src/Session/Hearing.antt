-- ===== src/Session/Hearing.antt =====
-- What one side of a transfer makes of a datagram of the other one (project_3/pdu.c).
use remotecopy.Base.{
  ℕ, suc, ◌+◌, ◌≤◌, ◌<◌, ◌^◌, ◌≡◌, ◌≢◌, refl, ap, sym, ◌∙◌, ◌/◌, ◌%◌, subst, inl, inr, Option, none,
  some, List, [], ◌∷◌, take, take_all, length-take-le, get_or, get_elem?, length, ntohl, htonl,
  ntohl-htonl, arith,
}
use remotecopy.Base.Control.{Fault, ok}
use remotecopy.Protocol.{
  recv_flag_location, filename_response_flag, rr_flag, srej_flag, eof_flag, eof_ack_flag,
  filename_flag,
}
use remotecopy.Pdu.{Pdu, fields, create_pdu, process_pdu, pdu_header_len}
use remotecopy.Server.State.{Sender}
use remotecopy.Server.Send.{read_number}
use remotecopy.Server.Transfer.{recv_buffer_length}
use remotecopy.Server.Invariant.{Transmission}
use remotecopy.Server.Turns.{Heard, MayHear}
use remotecopy.Rcopy.Genuine.{Genuine, Reply}
use remotecopy.Rcopy.Turns.{Timely}
use remotecopy.Rcopy.Copy.{flag-create_pdu}

abbrev pub pdu_of : ℕ → ℕ → List ℕ → Pdu
pdu_of seq flag payload = record { sequence_number = seq; recv_flag = flag; payload = payload }

fields-process_pdu :
    (in_cksum : List ℕ → ℕ) (d : List ℕ) (p : Pdu)
    → process_pdu in_cksum d ≡ some p
    → fields d ≡ some p
unfolding process_pdu
fields-process_pdu in_cksum d p e = ground arith

-- The first bytes of a datagram, whatever its sequence number.
fields-take :
    (in_cksum : List ℕ → ℕ) (n seq flag : ℕ) (payload : List ℕ)
    → (m : ℕ) × (seq < 2 ^ 32 → m ≡ seq)
      × (fields (take (pdu_header_len + n) (create_pdu in_cksum seq flag payload))
          ≡ some (pdu_of m flag (take n payload)))
unfolding create_pdu fields
fields-take in_cksum n seq flag payload = (
  _,
  ntohl-htonl seq,
  subst
      (λ m.
        fields (take m (create_pdu in_cksum seq flag payload))
        ≡ some (
            pdu_of (ntohl (seq / 2 ^ 24 % 256) (seq / 2 ^ 16 % 256) (seq / 2 ^ 8 % 256) (seq % 256))
              flag (take n payload)))
      {x = suc (suc (suc (suc (suc (suc (suc n))))))} (omega arith) refl,
)

pub read_number-htonl : (n : ℕ) → n < 2 ^ 32 → read_number (htonl n) ≡ ok n
unfolding read_number
read_number-htonl n h = ap ok (ntohl-htonl n h)

module _ (in_cksum : List ℕ → ℕ) where
  -- What holds of a datagram that fails its checksum, and of the fields of one that does not, holds
  -- of what is received.
  process_pdu-Is :
      (T : Option Pdu → Type 0) (n seq flag : ℕ) (payload : List ℕ)
      → T none
      → ((m : ℕ)
          → (seq < 2 ^ 32 → m ≡ seq)
          → fields (take (pdu_header_len + n) (create_pdu in_cksum seq flag payload))
            ≡ some (pdu_of m flag (take n payload))
          → T (some (pdu_of m flag (take n payload))))
      → T (process_pdu in_cksum (take (pdu_header_len + n) (create_pdu in_cksum seq flag payload)))
  process_pdu-Is T n seq flag payload no_data data_of = by_option (process_pdu in_cksum buffer) refl
    where
      buffer : List ℕ
      buffer = take (pdu_header_len + n) (create_pdu in_cksum seq flag payload)

      known :
          (m : ℕ) × (seq < 2 ^ 32 → m ≡ seq)
          × (fields buffer ≡ some (pdu_of m flag (take n payload)))
      known = fields-take in_cksum n seq flag payload

      by_option : (o : Option Pdu) → process_pdu in_cksum buffer ≡ o → T o
      by_option none e = no_data
      by_option (some p) e =
          subst T (sym known.2 ∙ fields-process_pdu in_cksum buffer p e)
            (data_of known.0 known.1 known.2)

  module _ (chunks : List (List ℕ)) (buffer_size : ℕ)
      (sized : (n : ℕ) (c : List ℕ) → get_elem? chunks n ≡ some c → length c ≤ buffer_size)
      (filled : (n : ℕ) (c : List ℕ) → get_elem? chunks n ≡ some c → 0 < length c)
      (edge lower limit current size : ℕ) where
    abbrev In : List ℕ → Option Pdu → Type 0
    In = Timely chunks limit (pdu_header_len + buffer_size) current size

    abbrev InTime : List ℕ → Type 0
    InTime d =
        In (take (pdu_header_len + buffer_size) d)
          (process_pdu in_cksum (take (pdu_header_len + buffer_size) d))

    late :
        (seq flag : ℕ) (payload : List ℕ)
        → seq < 2 ^ 32
        → seq < current
        → InTime (create_pdu in_cksum seq flag payload)
    late seq flag payload small h =
        process_pdu-Is (In (take (pdu_header_len + buffer_size) _)) buffer_size seq flag payload tt
          (λ m same e. inl (omega (arith, same small)))

    genuine :
        (seq flag : ℕ) (payload : List ℕ)
        → seq < 2 ^ 32
        → length payload ≤ buffer_size
        → Genuine chunks limit (pdu_of seq flag payload)
        → seq ≤ limit
        → seq < current + size
        → InTime (create_pdu in_cksum seq flag payload)
    genuine seq flag payload small fits g known within =
        process_pdu-Is (In (take (pdu_header_len + buffer_size) _)) buffer_size seq flag payload tt
          (λ m same e. inr (record {
            genuine =
                subst (λ x. Genuine chunks limit (pdu_of m flag x))
                  (sym (take_all buffer_size payload fits))
                  (subst (λ k. Genuine chunks limit (pdu_of k flag payload)) (sym (same small)) g);
            known = omega (arith, same small);
            within = omega (arith, same small);
            short = length-take-le (pdu_header_len + buffer_size) _;
            parsed = e;
          }))

    -- What the server has sent is late for the receiver or in its window.
    pub Timely-Transmission :
        (d : List ℕ)
        → Transmission in_cksum chunks edge lower limit d
        → get_or d recv_flag_location 0 ≢ filename_response_flag
        → limit ≤ edge
        → edge ≤ current + size
        → lower ≤ current
        → current ≤ limit
        → limit ≤ length chunks
        → length chunks < 2 ^ 31
        → 1 ≤ buffer_size
        → InTime d
    Timely-Transmission d (Transmission.response seq b q) ne _ _ _ _ _ _ _ = absurd (
        ne (
          ap (λ x. get_or x recv_flag_location 0) q
          ∙ flag-create_pdu in_cksum seq filename_response_flag (b ∷ [])))
    Timely-Transmission d (Transmission.chunk n flag c lt ne e q) _ h k _ _ l s _ =
        subst InTime (sym q) (
          genuine n flag c (omega arith) (sized n c e) (inl (ne, e, filled n c e, lt)) (omega arith)
            (omega arith))
    Timely-Transmission d (Transmission.last b all inside q) _ h k _ _ l s pos =
        subst InTime (sym q) (
          genuine (length chunks) eof_flag (b ∷ []) (omega arith) pos
            (inr (refl, refl, omega arith)) (omega arith) (omega arith))
    Timely-Transmission d (Transmission.stale n flag c lt q) _ h k j i l s _ =
        subst InTime (sym q) (late n flag c (omega arith) (omega arith))

  module _ (C : Fault → Type 0) (all : (f : Fault) → C f) (chunks : List (List ℕ))
      (limit current bound : ℕ) (s : Sender) where
    abbrev Heeds : List ℕ → Type 0
    Heeds d = MayHear C bound s (process_pdu in_cksum (take recv_buffer_length d))

    other :
        (seq flag : ℕ) (payload : List ℕ)
        → flag ≢ rr_flag
        → flag ≢ srej_flag
        → Heeds (create_pdu in_cksum seq flag payload)
    other seq flag payload f g =
        process_pdu-Is (MayHear C bound s) 4 seq flag payload tt (λ m same e. Heard.other f g)

    -- What the receiver has sent is an answer that the server can handle.
    pub MayHear-Reply :
        (d : List ℕ)
        → Reply in_cksum chunks limit current d
        → limit ≤ s.window.current
        → current ≤ limit
        → current ≤ bound
        → s.window.current < 2 ^ 31
        → Heeds d
    MayHear-Reply d (Reply.setup seq payload q) _ _ _ _ =
        subst Heeds (sym q) (other seq filename_flag payload (λ z. omega arith) (λ z. omega arith))
    MayHear-Reply d (Reply.rr seq n small le q) h k b t = subst Heeds (sym q) (
        process_pdu-Is (MayHear C bound s) 4 seq rr_flag (htonl n) tt (λ m same e.
          Heard.rr n refl (read_number-htonl n (omega arith)) (omega arith) (omega arith)))
    MayHear-Reply d (Reply.srej seq n small lt q) h k b t = subst Heeds (sym q) (
        process_pdu-Is (MayHear C bound s) 4 seq srej_flag (htonl n) tt (λ m same e.
          Heard.srej n refl (read_number-htonl n (omega arith)) (omega arith) (inr all)))
    MayHear-Reply d (Reply.eof_ack seq b small le q) _ _ _ _ =
        subst Heeds (sym q) (other seq eof_ack_flag (b ∷ []) (λ z. omega arith) (λ z. omega arith))
