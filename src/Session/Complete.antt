-- ===== src/Session/Complete.antt =====
-- A transfer between project_3/server.c and project_3/rcopy.c in which each datagram arrives.
use mathlib.Core.List.{Memᴰ}
use remotecopy.Base.{
  ℕ, zero, suc, ◌+◌, ◌<◌, ◌^◌, ◌≡◌, ◌≢◌, refl, sym, ap, ◌∙◌, subst, inr, true, none, some, List, [],
  ◌∷◌, ◌++◌, take, take_all, get_elem?, get_elem?-lt, get_or, length, inc32, htonl, arith, lt→ltb,
}
use remotecopy.Base.Chunks.{concat}
use remotecopy.Base.Control.{arrives}
use remotecopy.Protocol.{
  recv_flag_location, filename_response_flag, data_packet_flag, eof_flag, rr_flag, eof_ack_flag,
}
use remotecopy.Pdu.{create_pdu, IsChecksum}
use remotecopy.Window.{WindowArray, check_window_open}
use remotecopy.Server.State as Server
use remotecopy.Server.State.{Sender}
use remotecopy.Server.Serving.{IsServing}
use remotecopy.Server.Sending.{after_chunk, after_eof, send_eof_lem}
use remotecopy.Server.Handlers.{open_iff}
use remotecopy.Server.Start.{make_window-edges}
use remotecopy.Rcopy.State as Rcopy
use remotecopy.Rcopy.State.{Receiver}
use remotecopy.Rcopy.Transfer.{with_highest}
use remotecopy.Rcopy.Send.{write, send_rr, send_eof_ack, advance}
use remotecopy.Rcopy.Write.{with_file}
use remotecopy.Rcopy.Copy.{flag-create_pdu}
use remotecopy.Session.{Place, Site, serve, answer, listen, enter_eof, after, settle, Runs}
use remotecopy.Session.Sending.{Any}
use remotecopy.Session.Copy.{IsTransfer, Starts, together, Runs-eof_ack}
use remotecopy.Session.Delivery.{
  open_turn-chunk, open_turn-end, open_answer-rr, after_write, in_order_answer-chunk,
  in_order_answer-eof,
}

-- `read` gives each chunk, then the end of the file, and `write` writes all.
pub record IsWorking (server : Server.System) (client : Rcopy.System) (buffer_size : ℕ)
    (chunks : List (List ℕ)) : Type 0 where
  pub law : IsChecksum server.in_cksum
  pub reads :
      (n : ℕ) (c : List ℕ)
      → get_elem? chunks n ≡ some c
      → server.read_input (length (concat (take n chunks))) buffer_size ≡ some c
  pub ends : server.read_input (length (concat (take (length chunks) chunks))) buffer_size ≡ some []
  pub writes : (file bytes : List ℕ) → client.write_output file bytes ≡ some (length bytes)

write-all :
    (client : Rcopy.System) (c : List ℕ) (r : Receiver)
    → client.write_output r.file c ≡ some (length c)
    → write client c r ≡ (with_file r (r.file ++ c), true)
unfolding write
write-all client c r e = ground (arith, take_all (length c) c)

module _ (server : Server.System) (client : Rcopy.System) (buffer_size : ℕ) (chunks : List (List ℕ))
    (size : ℕ) (w : WindowArray) (seq : ℕ) (sent requests : List (List ℕ))
    (t : IsTransfer server client buffer_size chunks size w seq sent requests)
    (works : IsWorking server client buffer_size chunks) where
  abbrev Reached : Place → Site → Type 0
  Reached = Starts server client buffer_size chunks size w seq sent requests t

  -- `n` chunks have been copied, and nothing is under way.
  record Even (n : ℕ) : Type 0 where
    s : Sender
    r : Receiver
    run : Reached (Place.tests_open s) (Site.stands Rcopy.State.in_order r)
    lower : s.window.lower ≡ n
    current : s.window.current ≡ n
    expects : r.window.current ≡ n

  client_law : IsChecksum client.in_cksum
  client_law = subst IsChecksum (sym t.same) works.law

  -- What the child has sent first comes to rcopy.
  sends :
      (n m flag : ℕ) (c : List ℕ) (ds : List (List ℕ))
      → n ≡ m
      → flag ≢ filename_response_flag
      → Memᴰ (create_pdu client.in_cksum n flag c) (create_pdu server.in_cksum m flag c ∷ ds)
        × (get_or (create_pdu client.in_cksum n flag c) recv_flag_location 0
            ≢ filename_response_flag)
  sends n m flag c ds e ne = (
    Memᴰ.head
        (ap (λ k. create_pdu k n flag c) t.same ∙ ap (λ k. create_pdu server.in_cksum k flag c) e),
    λ z. ne (sym (flag-create_pdu client.in_cksum n flag c) ∙ z),
  )

  -- The two where they are even.
  serving :
      (s : Sender) (d : Site) → Reached (Place.tests_open s) d → IsServing server chunks none s
  serving s d run =
      (together server client buffer_size chunks size w seq sent requests t _ d run).placed.serving

  opened :
      (s : Sender) (d : Site)
      → Reached (Place.tests_open s) d
      → s.window.lower ≡ s.window.current
      → check_window_open s.window ≡ true
  opened s d run e =
      let v = serving s d run in
      open_iff server buffer_size chunks t.reading 0 0 size Any none s v
      ∙ lt→ltb s.window.current (s.window.lower + s.window.window_size)
          (omega (arith, v.window.window.positive))

  receiving :
      (p : Place) (r : Receiver)
      → Reached p (Site.stands Rcopy.State.in_order r)
      → (r.window.current < 2 ^ 32) × (r.sequence_number < 2 ^ 32)
  receiving p r run =
      let v =
        (together server client buffer_size chunks size w seq sent requests t p _ run).sited.0.0 in
      (omega (arith, v.current, v.small), v.number)

  -- The child sends the next chunk.
  sent_chunk :
      (s : Sender) (d : Site) (c : List ℕ)
      → Reached (Place.tests_open s) d
      → s.window.lower ≡ s.window.current
      → get_elem? chunks s.window.current ≡ some c
      → Reached (Place.polls_open (after_chunk server chunks c s)) d
  unfolding serve
  sent_chunk s d c run e q =
      let v = serving s d run in
      subst (λ p. Reached p d)
        (ap (after server buffer_size (λ x. x) Place.polls_open s) (
          open_turn-chunk server buffer_size chunks s c v (opened s d run e)
            (omega (arith, v.window.window.positive)) q (t.reading.filled s.window.current c q)
            (omega (arith, t.reading.sized s.window.current c q, t.fits)) t.fits
            (subst (λ n. server.read_input n buffer_size ≡ some c) (sym v.offset)
              (works.reads s.window.current c q))))
        (Runs.serves (Place.tests_open s) d run)

  -- rcopy writes it.
  written :
      (s : Sender) (r : Receiver) (c : List ℕ)
      → Reached
          (Place.polls_open (after_chunk server chunks c s))
          (Site.stands Rcopy.State.in_order r)
      → r.window.current ≡ s.window.current
      → get_elem? chunks s.window.current ≡ some c
      → Reached
          (Place.polls_open (after_chunk server chunks c s))
          (Site.stands Rcopy.State.in_order (after_write client buffer_size client_law c r))
  unfolding listen
  written s r c run e q =
      subst (λ d. Reached (Place.polls_open (after_chunk server chunks c s)) d)
        (ap (settle client buffer_size Rcopy.State.in_order r) (
          in_order_answer-chunk client buffer_size client_law r c (receiving _ r run).0
            (t.reading.filled s.window.current c q) (t.reading.sized s.window.current c q)
            (write-all client c r (works.writes r.file c))))
        (Runs.listens (arrives (create_pdu client.in_cksum r.window.current data_packet_flag c)) _ _
          run
          (inr (
            sends r.window.current s.window.current data_packet_flag c s.sent e
              (λ z. omega arith))))

  -- The child hears of it. `s` is the child after its packet, `r` the receiver before its answer.
  answered :
      (s : Sender) (r : Receiver)
      → Reached
          (Place.polls_open s)
          (Site.stands Rcopy.State.in_order (send_rr client r.window.current r))
      → r.sequence_number < 2 ^ 32
      → r.window.current ≡ s.window.current
      → (s' : Sender) × Reached
          (Place.tests_open s')
          (Site.stands Rcopy.State.in_order (send_rr client r.window.current r))
        × (s'.window.lower ≡ s.window.current)
        × (s'.window.current ≡ s.window.current)
  unfolding answer send_rr
  answered s r run small e =
      let d : List ℕ =
        create_pdu server.in_cksum r.sequence_number rr_flag (htonl s.window.current) in
      let (s', q, lower, current) =
        open_answer-rr server buffer_size chunks s r.sequence_number works.law
          (together server client buffer_size chunks size w seq sent requests t _ _
            run).placed.serving
          small in
      (
        s',
        subst
            (λ p. Reached p (Site.stands Rcopy.State.in_order (send_rr client r.window.current r)))
            (ap (after server buffer_size (λ x. x) Place.tests_open s) q)
            (Runs.answers (arrives d) _ _ run (
              inr (
                Memᴰ.head (
                    ap (λ k. create_pdu k r.sequence_number rr_flag (htonl s.window.current))
                      (sym t.same)
                    ∙ ap (λ n. create_pdu client.in_cksum r.sequence_number rr_flag (htonl n))
                        (sym e)),
                λ z. absurd (
                    omega (
                      arith,
                      z,
                      flag-create_pdu server.in_cksum r.sequence_number rr_flag
                          (htonl s.window.current),
                    )),
              ))),
        lower,
        current,
      )

  next-Even : (n : ℕ) (c : List ℕ) → Even n → get_elem? chunks n ≡ some c → Even (suc n)
  unfolding send_rr
  next-Even n c v q =
      let chunk = subst (λ m. get_elem? chunks m ≡ some c) (sym v.current) q in
      let run1 = sent_chunk v.s _ c v.run (v.lower ∙ sym v.current) chunk in
      let run2 = written v.s v.r c run1 (v.expects ∙ sym v.current) chunk in
      let held = serving v.s _ v.run in
      let r' = advance (with_highest v.r.window.current (with_file v.r (v.r.file ++ c))) in
      let (s', run3, lower, current) =
        answered (after_chunk server chunks c v.s) r' run2 (receiving _ v.r v.run).1
          (ap inc32 (v.expects ∙ sym v.current)) in
      record {
        s = s';
        r = send_rr client r'.window.current r';
        run = run3;
        lower = omega (arith, lower, v.current, held.window.read, held.window.small);
        current = omega (arith, current, v.current, held.window.read, held.window.small);
        expects = omega (arith, v.expects, v.current, held.window.read, held.window.small);
      }

  all-Even : (k n : ℕ) → n + k ≡ length chunks → Even n → Even (length chunks)
  all-Even zero n e v = subst Even (omega arith) v
  all-Even (suc k) n e v =
      let (c, q) = get_elem?-lt chunks n (omega arith) in
      all-Even k (suc n) (omega arith) (next-Even n c v q)

  -- The child sends the end of the file, and rcopy acknowledges it.
  sent_end :
      (s : Sender) (d : Site)
      → Reached (Place.tests_open s) d
      → s.window.lower ≡ s.window.current
      → s.window.current ≡ length chunks
      → Reached (Place.tests_eof (record { sender = after_eof server chunks s; count = 0 })) d
  unfolding serve
  sent_end s d run e q =
      let v = serving s d run in
      subst (λ p. Reached p d)
        (ap (after server buffer_size (λ x. x) Place.polls_open s) (
            open_turn-end server buffer_size chunks s (opened s d run e) t.fits (
              subst (λ n. server.read_input n buffer_size ≡ some []) (sym v.offset)
                (subst
                  (λ n. server.read_input (length (concat (take n chunks))) buffer_size ≡ some [])
                  (sym q) works.ends)))
          ∙ ap (enter_eof server buffer_size s)
              (send_eof_lem server chunks s v (omega (arith, v.window.window.positive)) q).0)
        (Runs.serves (Place.tests_open s) d run)

  finished :
      (s : Sender) (r : Receiver)
      → Reached
          (Place.tests_eof (record { sender = after_eof server chunks s; count = 0 }))
          (Site.stands Rcopy.State.in_order r)
      → r.window.current ≡ s.window.current
      → Reached
          (Place.tests_eof (record { sender = after_eof server chunks s; count = 0 }))
          (Site.stands Rcopy.State.done (send_eof_ack client r))
  unfolding listen
  finished s r run e =
      subst
        (λ d.
          Reached (Place.tests_eof (record { sender = after_eof server chunks s; count = 0 })) d)
        (ap (settle client buffer_size Rcopy.State.in_order r) (
          in_order_answer-eof client buffer_size client_law r server.stack_byte
            (receiving _ r run).0 t.filled))
        (Runs.listens
          (arrives (create_pdu client.in_cksum r.window.current eof_flag (server.stack_byte ∷ [])))
          _ _ run
          (inr (
            sends r.window.current s.window.current eof_flag (server.stack_byte ∷ []) s.sent e
              (λ z. omega arith))))

  first-Even : Even 0
  first-Even =
      let (lower, current, _) = make_window-edges size w t.made in
      record {
        s = record { window = w; offset = 0; sent = sent };
        r = record { window = w; file = []; sequence_number = seq; sent = requests };
        run = Runs.begins;
        lower = lower;
        current = current;
        expects = current;
      }

  -- A transfer under the conditions of `Runs-Prefix` can be carried through: if the checksum
  -- satisfies its law, `read` gives each chunk and then the end of the file, and `write` writes
  -- all, then there is a run of the two, from where they start, to where rcopy is in DONE and has
  -- written a file that is equal to the one that the child reads. In this run each datagram
  -- arrives.
  pub Runs-complete :
      (q : Place) × (r : Receiver) × Reached q (Site.stands Rcopy.State.done r)
      × (r.file ≡ concat chunks)
  unfolding send_eof_ack
  Runs-complete =
      let v = all-Even (length chunks) 0 (omega arith) first-Even in
      let run =
        finished v.s v.r (sent_end v.s _ v.run (v.lower ∙ sym v.current) v.current)
          (v.expects ∙ sym v.current) in
      (
        _,
        send_eof_ack client v.r,
        run,
        Runs-eof_ack server client buffer_size chunks size w seq sent requests t _ _ _ run
            (Memᴰ.head refl)
            (flag-create_pdu client.in_cksum v.r.sequence_number eof_ack_flag
              (client.stack_byte ∷ [])),
      )
