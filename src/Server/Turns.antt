-- ===== src/Server/Turns.antt =====
-- What one turn of window_open, window_closed or end_of_file (project_3/server.c) does to a sender
-- that reads a file in chunks and hears from a receiver of it.
use native.Mathlib.Decide.{dec_lt}
use remotecopy.Base.{
  ℕ, ◌+◌, ◌≤◌, ◌<◌, ◌≡◌, ◌≢◌, refl, ◌∙◌, ◌⊎◌, inl, inr, Option, none, some, List, [], take,
  get_elem?, get_elem?-lt, length, arith,
}
use remotecopy.Base.Chunks.{concat}
use remotecopy.Base.Control.{Turn, TurnIs, ok, fault, Fault, attempt}
use remotecopy.Protocol.{rr_flag, srej_flag, eof_flag}
use remotecopy.Pdu.{Pdu, create_pdu}
use remotecopy.Window.{Packet}
use remotecopy.Server.State.{System, Sender}
use remotecopy.Server.Send.{process_rr, process_srej, resend_data_packet, read_number, safe_sendto}
use remotecopy.Server.Invariant.{Transmission}
use remotecopy.Server.Serving.{
  IsServing, sendto-IsServing, process_rr-IsServing, resend-held, resend-stale,
}

-- `read` gives the chunks of the file in their order, then the end of the file, or fails.
pub record IsReading (sys : System) (buffer_size : ℕ) (chunks : List (List ℕ)) : Type 0 where
  pub sized : (n : ℕ) (c : List ℕ) → get_elem? chunks n ≡ some c → length c ≤ buffer_size
  pub filled : (n : ℕ) (c : List ℕ) → get_elem? chunks n ≡ some c → 0 < length c
  pub reads :
      (n : ℕ) (c : List ℕ)
      → get_elem? chunks n ≡ some c
      → (sys.read_input (length (concat (take n chunks))) buffer_size ≡ some c)
        ⊎ (sys.read_input (length (concat (take n chunks))) buffer_size ≡ none)
  pub ends :
      (sys.read_input (length (concat (take (length chunks) chunks))) buffer_size ≡ some [])
      ⊎ (sys.read_input (length (concat (take (length chunks) chunks))) buffer_size ≡ none)

-- An answer that a receiver may give: a RR that is not beyond the current packet, a SREJ below it,
-- or something else. `C` is what is allowed of the faults that a SREJ below the window may cause.
-- `bound` is what the receiver has accepted.
pub data Heard (C : Fault → Type 0) (bound : ℕ) (s : Sender) (p : Pdu) : Type 0 where
  rr :
      (n : ℕ)
      → p.recv_flag ≡ rr_flag
      → read_number p.payload ≡ ok n
      → n ≤ s.window.current
      → n ≤ bound
      → Heard C bound s p
  srej :
      (n : ℕ)
      → p.recv_flag ≡ srej_flag
      → read_number p.payload ≡ ok n
      → n < s.window.current
      → (s.window.lower ≤ n) ⊎ ((f : Fault) → C f)
      → Heard C bound s p
  other : p.recv_flag ≢ rr_flag → p.recv_flag ≢ srej_flag → Heard C bound s p

abbrev pub MayHear : (Fault → Type 0) → ℕ → Sender → Option Pdu → Type 0
MayHear C bound s none = Unit {0}
MayHear C bound s (some p) = Heard C bound s p

-- The sender has read `base` chunks at least, and has not moved its window beyond `bound`.
pub record IsWithin (sys : System) (chunks : List (List ℕ)) (base bound width : ℕ)
    (tail : Option Packet) (s : Sender) : Type 0 where
  pub serving : IsServing sys chunks tail s
  pub from : base ≤ s.window.current
  pub upto : s.window.lower ≤ bound
  pub wide : s.window.window_size ≡ width

rr_upto :
    {bound : ℕ} (l n l' : ℕ)
    → l ≤ bound
    → n ≤ bound
    → (l ≤ n → l' ≡ n)
    → (n ≤ l → l' ≡ l)
    → l' ≤ bound
rr_upto l n l' h k exact still = elim (dec_lt l n) [
  | yes p ↦ omega (arith, exact (omega arith))
  | no p ↦ omega (arith, still (omega arith))
]

module _ (sys : System) (buffer_size : ℕ) (chunks : List (List ℕ))
    (reading : IsReading sys buffer_size chunks) (base bound width : ℕ) (C : Fault → Type 0) where
  abbrev pub Ok : Option Packet → Sender → Type 0
  Ok = IsWithin sys chunks base bound width

  module _ (tail : Option Packet) {W A : Type 0} (P : W → Type 0) (Q : A → W → Type 0) where
    -- The answer to a SREJ, whatever comes of the sender.
    pub srej-Is :
        (s : Sender) (n flag : ℕ) (payload : List ℕ) (k : Sender → Turn W A)
        → Ok tail s
        → flag ≢ eof_flag
        → read_number payload ≡ ok n
        → n < s.window.current
        → (s.window.lower ≤ n) ⊎ ((f : Fault) → C f)
        → ((s' : Sender) → Ok tail s' → s'.window ≡ s.window → TurnIs P Q C (k s'))
        → TurnIs P Q C (attempt (process_srej sys flag buffer_size payload s) k)
    unfolding process_srej
    srej-Is s n flag payload k v ne e lt ok_or go = elim (dec_lt n s.window.lower) [
      | no here ↦
          let (c, q) = get_elem?-lt chunks n (omega (arith, v.serving.window.read)) in
          rw
            (
              e,
              resend-held sys chunks tail s n flag buffer_size c v.serving (omega arith) lt q
                  (reading.sized n c q),
            )
            (sent (create_pdu sys.in_cksum n flag c) (Transmission.chunk n flag c lt ne q refl))
      | yes late ↦ rw e (
          stale (resend-stale sys chunks tail s n flag buffer_size v.serving late) late
            (allowed late ok_or))
    ]
      where
        sent :
            (d : List ℕ)
            → Transmission sys.in_cksum chunks
                (s.window.lower + s.window.window_size)
                s.window.lower
                s.window.current
                d
            → TurnIs P Q C (k (safe_sendto d s))
        sent d t =
            go (safe_sendto d s)
              (record {
                serving = sendto-IsServing sys chunks tail s d v.serving t;
                from = v.from;
                upto = v.upto;
                wide = v.wide;
              })
              refl

        allowed :
            n < s.window.lower → (s.window.lower ≤ n) ⊎ ((f : Fault) → C f) → (f : Fault) → C f
        allowed h (inl l) f = absurd (omega arith)
        allowed h (inr c) f = c f

        stale :
            ((f : Fault) × (resend_data_packet sys n flag buffer_size s ≡ fault f))
              ⊎ ((flag' : ℕ) × (c : List ℕ) × (resend_data_packet sys n flag buffer_size s
                    ≡ ok (safe_sendto (create_pdu sys.in_cksum n flag' c) s)))
            → n < s.window.lower
            → ((f : Fault) → C f)
            → TurnIs P Q C (attempt (resend_data_packet sys n flag buffer_size s) k)
        stale (inl (f, q)) late c = rw q (c f)
        stale (inr (flag', x, q)) late c =
            rw q (sent (create_pdu sys.in_cksum n flag' x) (Transmission.stale n flag' x late refl))

    -- The answer to a RR.
    pub rr-Is :
        (s : Sender) (n : ℕ) (payload : List ℕ) (k : Sender → Turn W A)
        → Ok tail s
        → read_number payload ≡ ok n
        → n ≤ s.window.current
        → n ≤ bound
        → ((s' : Sender) → Ok tail s' → s'.window.current ≡ s.window.current → TurnIs P Q C (k s'))
        → TurnIs P Q C (attempt (process_rr payload s) k)
    rr-Is s n payload k v e le lim go =
        let (s', q, serving, later, reached, exact, still, _) =
          process_rr-IsServing sys chunks tail s payload n v.serving e le in
        rw q (
          go s'
            (record {
              serving = serving;
              from = omega (arith, v.from, later.current);
              upto = rr_upto s.window.lower n s'.window.lower v.upto lim exact still;
              wide = later.size ∙ v.wide;
            })
            later.current)
