-- ===== src/Server/Serving.antt =====
-- What send_data_packet, resend_data_packet, send_eof and the answers to RR and SREJ
-- (project_3/server.c) do to a sender.
use native.Mathlib.Decide.{dec_lt}
use remotecopy.Base.{
  ℕ, ◌+◌, ◌≤◌, ◌<◌, ◌^◌, ◌≡◌, refl, ◌⊎◌, inl, inr, Option, none, some, List, [], ◌∷◌, take, drop,
  get_or, get_elem?, length, arith, All,
}
use remotecopy.Base.Chunks.{concat}
use remotecopy.Base.Control.{ok, fault, Fault, uninitialised, overflow}
use remotecopy.Protocol.{eof_flag}
use remotecopy.Pdu.{create_pdu, pdu_header_len}
use remotecopy.Window.{Packet, new_packet}
use remotecopy.Window.Slot.{IsWindow, stored, stored-total}
use remotecopy.Window.Store.{get_pdu_taken, get_pdu_free, get_pdu_overflow}
use remotecopy.Server.State.{System, Sender}
use remotecopy.Server.Send.{resend_data_packet, process_rr, read_number, safe_sendto, resent_flag}
use remotecopy.Server.Invariant.{
  IsSending, Transmission, data_packet, cleaning_up_with_rr-Cleans, All-Transmission-mono,
}

abbrev pub eof_packet : System → ℕ → Packet
eof_packet sys n = new_packet n (create_pdu sys.in_cksum n eof_flag (sys.stack_byte ∷ []))

-- The sender's window, how far it has read, and what it has sent.
pub record IsServing (sys : System) (chunks : List (List ℕ)) (tail : Option Packet) (s : Sender)
    : Type 0 where
  pub window : IsSending sys.in_cksum chunks tail s.window
  pub offset : s.offset ≡ length (concat (take s.window.current chunks))
  pub sent :
      All
        (Transmission sys.in_cksum chunks
          (s.window.lower + s.window.window_size)
          s.window.lower
          s.window.current)
        s.sent

-- The later sender has the window moved up at its lower edge at most.
pub record IsLater (s s' : Sender) : Type 0 where
  pub current : s'.window.current ≡ s.window.current
  pub size : s'.window.window_size ≡ s.window.window_size
  pub lower : s.window.lower ≤ s'.window.lower

module _ (sys : System) (chunks : List (List ℕ)) (tail : Option Packet) where
  abbrev Ok : Sender → Type 0
  Ok = IsServing sys chunks tail

  -- One more datagram.
  pub sendto-IsServing :
      (s : Sender) (d : List ℕ)
      → Ok s
      → Transmission sys.in_cksum chunks
          (s.window.lower + s.window.window_size)
          s.window.lower
          s.window.current
          d
      → Ok (safe_sendto d s)
  sendto-IsServing s d v t = record { window = v.window; offset = v.offset; sent = (t, v.sent) }

  -- The answer to a RR that is not beyond the current packet.
  pub process_rr-IsServing :
      (s : Sender) (payload : List ℕ) (rr : ℕ)
      → Ok s
      → read_number payload ≡ ok rr
      → rr ≤ s.window.current
      → (s' : Sender) × (process_rr payload s ≡ ok s')
        × Ok s'
        × IsLater s s'
        × (rr ≤ s'.window.lower)
        × (s.window.lower ≤ rr → s'.window.lower ≡ rr)
        × (rr ≤ s.window.lower → s'.window.lower ≡ s.window.lower)
        × (s'.sent ≡ s.sent)
  unfolding process_rr
  process_rr-IsServing s payload rr v e le =
      let (w', q, k) =
        cleaning_up_with_rr-Cleans sys.in_cksum chunks tail rr s.window v.window le in
      (
        record s { window = w' },
        rw (e, q),
        record {
          window = k.kept;
          offset = rw k.current v.offset;
          sent =
              All-Transmission-mono sys.in_cksum chunks (s.window.lower + s.window.window_size)
                (w'.lower + w'.window_size) s.window.lower w'.lower s.window.current w'.current
                (omega (arith, k.above, k.size)) k.above (omega (arith, k.current)) k.kept.read
                s.sent v.sent;
        },
        record { current = k.current; size = k.size; lower = k.above },
        k.reached,
        k.exact,
        k.still,
        refl,
      )

  -- resend_data_packet of a number between the lower edge and the current number, for a sender that
  -- satisfies the invariant, sends the chunk of the file under this number with the flag that is
  -- asked for, and changes nothing else. The chunk fits the buffer size.
  pub resend-held :
      (s : Sender) (n flag buffer_size : ℕ) (c : List ℕ)
      → Ok s
      → s.window.lower ≤ n
      → n < s.window.current
      → get_elem? chunks n ≡ some c
      → length c ≤ buffer_size
      → resend_data_packet sys n flag buffer_size s
        ≡ ok (safe_sendto (create_pdu sys.in_cksum n flag c) s)
  unfolding resend_data_packet create_pdu
  resend-held s n flag buffer_size c v l u e h = rw (
      get_pdu_taken s.window n v.window.window (omega (arith, v.window.read, v.window.small))
        (pdu_header_len + buffer_size) (data_packet sys.in_cksum n c) (v.window.held n c l u e)
        (omega arith))

  -- Sending a packet below the window again: whatever is in its slot.
  pub resend-stale :
      (s : Sender) (n flag buffer_size : ℕ)
      → Ok s
      → n < s.window.lower
      → ((f : Fault) × (resend_data_packet sys n flag buffer_size s ≡ fault f))
        ⊎ ((flag' : ℕ) × (c : List ℕ) × (resend_data_packet sys n flag buffer_size s
              ≡ ok (safe_sendto (create_pdu sys.in_cksum n flag' c) s)))
  unfolding resend_data_packet
  resend-stale s n flag buffer_size v h =
      by_slot (stored-total s.window n v.window.window).0
        (stored-total s.window n v.window.window).1
    where
      small : n < 2147483648
      small = omega (arith, v.window.read, v.window.small, v.window.lower)

      room : ℕ
      room = pdu_header_len + buffer_size

      by_slot :
          (x : Option Packet)
          → stored s.window n ≡ some x
          → ((f : Fault) × (resend_data_packet sys n flag buffer_size s ≡ fault f))
            ⊎ ((flag' : ℕ) × (c : List ℕ) × (resend_data_packet sys n flag buffer_size s
                  ≡ ok (safe_sendto (create_pdu sys.in_cksum n flag' c) s)))
      by_slot none e =
          inl (uninitialised, rw (get_pdu_free s.window n v.window.window small room e))
      by_slot (some p) e = elim (dec_lt room p.pdu_length) [
        | yes q ↦ inl (overflow, rw (get_pdu_overflow s.window n v.window.window small room p e q))
        | no q ↦ inr (
          resent_flag (get_or p.pdu 6 0) flag,
          drop pdu_header_len p.pdu,
          rw (get_pdu_taken s.window n v.window.window small room p e (omega arith)),
        )
      ]

-- resend_data_packet of a number below 2 ^ 31 whose slot is empty, in a window whose array matches
-- its size, goes on with a buffer that nothing was written to.
pub resend-empty :
    (sys : System) (s : Sender) (n flag buffer_size : ℕ)
    → IsWindow s.window
    → n < 2 ^ 31
    → stored s.window n ≡ some none
    → resend_data_packet sys n flag buffer_size s ≡ fault uninitialised
unfolding resend_data_packet
resend-empty sys s n flag buffer_size v h e =
    rw (get_pdu_free s.window n v h (pdu_header_len + buffer_size) e)

-- Sending the end of file again: it keeps its flag.
pub resend-eof :
    (sys : System) (chunks : List (List ℕ)) (m : ℕ) (s : Sender) (flag buffer_size : ℕ)
    → IsServing sys chunks (some (eof_packet sys m)) s
    → s.window.current < s.window.lower + s.window.window_size
    → 1 ≤ buffer_size
    → resend_data_packet sys s.window.current flag buffer_size s
      ≡ ok (safe_sendto (create_pdu sys.in_cksum s.window.current eof_flag (sys.stack_byte ∷ [])) s)
unfolding resend_data_packet create_pdu
resend-eof sys chunks m s flag buffer_size v room h = rw (
    get_pdu_taken s.window s.window.current v.window.window
      (omega (arith, v.window.read, v.window.small)) (pdu_header_len + buffer_size)
      (eof_packet sys m) (v.window.next room) (omega arith))
