-- ===== src/Session/Delivery.antt =====
-- The steps of a transfer in which each datagram arrives: project_3/server.c sends the next chunk,
-- project_3/rcopy.c writes it, and the server takes it out of its window.
use remotecopy.Base.{
  ℕ, ◌+◌, ◌≤◌, ◌<◌, ◌^◌, ◌≡◌, refl, ap, ◌∙◌, false, true, none, some, List, [], ◌∷◌, ◌++◌, take,
  take_all, get_elem?, length, htonl, arith, ==-ne, ==_iff, is_neg, leb,
}
use remotecopy.Base.Control.{arrives, again, leave, attempt}
use remotecopy.Protocol.{data_packet_flag, eof_flag, rr_flag}
use remotecopy.Pdu.{create_pdu, process_pdu, IsChecksum, pdu_header_len}
use remotecopy.Pdu.RoundTrip.{process_pdu-create_pdu, length-create_pdu}
use remotecopy.Window.{check_window_open}
use remotecopy.Server.State as Server
use remotecopy.Server.State.{Sender}
use remotecopy.Server.Transfer.{use_read, open_turn, open_response, open_answer}
use remotecopy.Server.Serving.{IsServing, process_rr-IsServing}
use remotecopy.Server.Sending.{send_data_packet_lem, after_chunk}
use remotecopy.Rcopy.State as Rcopy
use remotecopy.Rcopy.State.{Receiver}
use remotecopy.Rcopy.Transfer.{
  room, accept, in_order_expected, in_order_response, in_order_answer, with_highest,
}
use remotecopy.Rcopy.Send.{write, send_rr, send_eof_ack, advance}
use remotecopy.Rcopy.Write.{with_file}
use remotecopy.Session.Hearing.{read_number-htonl, pdu_of}

-- A datagram that fits the buffer that it is received into.
pub process_pdu-take :
    (in_cksum : List ℕ → ℕ) (n seq flag : ℕ) (payload : List ℕ)
    → IsChecksum in_cksum
    → seq < 2 ^ 32
    → length payload ≤ n
    → process_pdu in_cksum (take (pdu_header_len + n) (create_pdu in_cksum seq flag payload))
      ≡ some (pdu_of seq flag payload)
process_pdu-take in_cksum n seq flag payload law small fits =
    ap (process_pdu in_cksum) (
      take_all (pdu_header_len + n) (create_pdu in_cksum seq flag payload)
        (omega (arith, length-create_pdu in_cksum seq flag payload)))
    ∙ process_pdu-create_pdu in_cksum law seq flag payload small

leb_self : (n : ℕ) → leb n n ≡ true
leb_self n = ground arith

module _ (sys : Server.System) (buffer_size : ℕ) (chunks : List (List ℕ)) where
  use_read-chunk :
      (s : Sender) (c : List ℕ)
      → IsServing sys chunks none s
      → s.window.current < s.window.lower + s.window.window_size
      → get_elem? chunks s.window.current ≡ some c
      → 0 < length c
      → length c ≤ 1400
      → use_read sys buffer_size (some c) s ≡ again (after_chunk sys chunks c s)
  unfolding use_read
  use_read-chunk s [] v room e pos short = absurd (omega arith)
  use_read-chunk s (b ∷ bytes) v room e pos short =
      ap (λ r. attempt r again) (send_data_packet_lem sys chunks s (b ∷ bytes) v room e short).0

  -- window_open down to its poll, with room in the window and a chunk that is read.
  pub open_turn-chunk :
      (s : Sender) (c : List ℕ)
      → IsServing sys chunks none s
      → check_window_open s.window ≡ true
      → s.window.current < s.window.lower + s.window.window_size
      → get_elem? chunks s.window.current ≡ some c
      → 0 < length c
      → length c ≤ 1400
      → buffer_size ≤ 1400
      → sys.read_input s.offset buffer_size ≡ some c
      → open_turn sys buffer_size s ≡ again (after_chunk sys chunks c s)
  unfolding open_turn
  open_turn-chunk s c v wide room e pos short fits read =
      rw (wide, big, read) (use_read-chunk s c v room e pos short)
    where
      big : is_neg buffer_size ≡ false
      big = ground arith

  -- window_open at the end of the file.
  pub open_turn-end :
      (s : Sender)
      → check_window_open s.window ≡ true
      → buffer_size ≤ 1400
      → sys.read_input s.offset buffer_size ≡ some []
      → open_turn sys buffer_size s ≡ leave Server.State.end_of_file s
  unfolding open_turn use_read
  open_turn-end s wide fits read = rw (wide, big, read) refl
    where
      big : is_neg buffer_size ≡ false
      big = ground arith

  -- window_open after a RR for the current number: nothing is left in the window.
  pub open_answer-rr :
      (s : Sender) (seq : ℕ)
      → IsChecksum sys.in_cksum
      → IsServing sys chunks none s
      → seq < 2 ^ 32
      → (s' : Sender) × (open_answer sys buffer_size
            (arrives (create_pdu sys.in_cksum seq rr_flag (htonl s.window.current)))
            s
          ≡ again s')
        × (s'.window.lower ≡ s.window.current)
        × (s'.window.current ≡ s.window.current)
  unfolding open_answer open_response
  open_answer-rr s seq law v small =
      let (s', q, _, later, _, exact, _, _) =
        process_rr-IsServing sys chunks none s (htonl s.window.current) s.window.current v
          (read_number-htonl s.window.current (omega (arith, v.window.read, v.window.small)))
          (omega arith) in
      (
        s',
        rw
            (process_pdu-take sys.in_cksum 4 seq rr_flag (htonl s.window.current) law small
              (omega arith))
            (ap (λ r. attempt r again) q),
        exact v.window.lower,
        later.current,
      )

module _ (sys : Rcopy.System) (buffer_size : ℕ) (law : IsChecksum sys.in_cksum) where
  -- The receiver after the current chunk has been written.
  abbrev pub after_write : List ℕ → Receiver → Receiver
  after_write c r =
      let r' = advance (with_highest r.window.current (with_file r (r.file ++ c))) in
      send_rr sys r'.window.current r'

  -- in_order hears the chunk that it expects.
  pub in_order_answer-chunk :
      (r : Receiver) (c : List ℕ)
      → r.window.current < 2 ^ 32
      → 0 < length c
      → length c ≤ buffer_size
      → write sys c r ≡ (with_file r (r.file ++ c), true)
      → in_order_answer sys buffer_size
          (arrives (create_pdu sys.in_cksum r.window.current data_packet_flag c))
          r
        ≡ leave Rcopy.State.in_order (after_write c r)
  unfolding in_order_answer in_order_response in_order_expected accept
  in_order_answer-chunk r c small pos fits wrote = rw (
    process_pdu-take sys.in_cksum buffer_size r.window.current data_packet_flag c law small fits,
    leb_self r.window.current,
    (==_iff r.window.current r.window.current).1 refl,
    ==-ne (length c) 0 (λ q. omega arith),
    wrote,
  )

  -- in_order hears the end of the file.
  pub in_order_answer-eof :
      (r : Receiver) (b : ℕ)
      → r.window.current < 2 ^ 32
      → 1 ≤ buffer_size
      → in_order_answer sys buffer_size
          (arrives (create_pdu sys.in_cksum r.window.current eof_flag (b ∷ [])))
          r
        ≡ leave Rcopy.State.done (send_eof_ack sys r)
  unfolding in_order_answer in_order_response in_order_expected
  in_order_answer-eof r b small fits = rw (
    process_pdu-take sys.in_cksum buffer_size r.window.current eof_flag (b ∷ []) law small fits,
    leb_self r.window.current,
    (==_iff r.window.current r.window.current).1 refl,
  )
