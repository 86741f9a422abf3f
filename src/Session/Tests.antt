-- ===== src/Session/Tests.antt =====
-- A transfer of a file in two chunks between project_3/server.c and project_3/rcopy.c, with a window
-- of two packets. The second chunk comes first.
use mathlib.Core.List.{Memᴰ}
use remotecopy.Base.{
  ℕ, zero, suc, ◌≤◌, ◌<◌, ◌≡◌, refl, subst, ◌⊎◌, inl, inr, some, none, List, [], ◌∷◌, take,
  get_elem?, length, ◌==◌, if◌then◌else◌, arith, true,
}
use remotecopy.Base.Chunks.{concat, Prefix}
use remotecopy.Base.Control.{timeout, arrives}
use remotecopy.Pdu.{create_pdu}
use remotecopy.Window.{
  WindowArray, make_window, slot_index, add_pdu, get_pdu, remove_pdu, check_pdu_valid,
}
use remotecopy.Server.State as Server
use remotecopy.Server.Send.{
  send_data_packet, send_eof, process_rr, read_number, cleaning_up_with_rr, cleaning,
}
use remotecopy.Server.Transfer.{
  use_read, open_turn, open_response, open_answer, closed_turn, closed_response, closed_answer,
  eof_turn,
}
use remotecopy.Server.Turns.{IsReading}
use remotecopy.Server.Sending.{some-inj}
use remotecopy.Rcopy.State as Rcopy
use remotecopy.Rcopy.Send.{write, send_rr, send_srejs, srej_rounds, send_srej, send_eof_ack}
use remotecopy.Rcopy.Transfer.{
  in_order_answer, in_order_response, buffering_answer, buffering_expected, in_order_expected,
  in_order_ahead, accept, buffering_response, flush, flush_rounds, flush_turn, flush_pdu,
  flush_next,
}
use remotecopy.Pdu.{process_pdu, fields}
use remotecopy.Session.{
  Place, Site, sender_at, receiver_at, Runs, serve, answer, listen, advance_client,
}
use remotecopy.Session.Copy.{
  first_place, first_site, IsTransfer, Runs-Prefix, Runs-eof_ack, Runs-stands,
}

abbrev two_chunks : List (List ℕ)
two_chunks = (65 ∷ 66 ∷ []) ∷ (67 ∷ []) ∷ []

abbrev disk : ℕ → List ℕ
disk offset = if offset == 0 then 65 ∷ 66 ∷ [] else if offset == 2 then 67 ∷ [] else []

abbrev server : Server.System
server = record {
  in_cksum = λ bytes. 0;
  stack_byte = 0;
  open_input = λ name. true;
  read_input = λ offset size. some (disk offset);
}

abbrev client : Rcopy.System
client = record {
  in_cksum = λ bytes. 0;
  stack_byte = 0;
  open_output = true;
  write_output = λ file bytes. some (length bytes);
}

abbrev first_window : WindowArray
first_window = record {
  array = none ∷ none ∷ [];
  upper = 2;
  lower = 0;
  current = 0;
  window_size = 2;
  highest = 0;
}

each_chunk :
    (P : ℕ → List ℕ → Type 0)
    → P 0 (65 ∷ 66 ∷ [])
    → P 1 (67 ∷ [])
    → (n : ℕ) (c : List ℕ) → get_elem? two_chunks n ≡ some c
    → P n c
each_chunk P p q zero c e = subst (P 0) (some-inj e) p
each_chunk P p q (suc zero) c e = subst (P 1) (some-inj e) q
each_chunk P p q (suc (suc n)) c e = absurd (cc)

reading : IsReading server 2 two_chunks
reading = record {
  sized = each_chunk (λ n c. length c ≤ 2) (omega arith) (omega arith);
  filled = each_chunk (λ n c. 0 < length c) (omega arith) (omega arith);
  reads =
      each_chunk
        (λ n c.
          (server.read_input (length (concat (take n two_chunks))) 2 ≡ some c)
          ⊎ (server.read_input (length (concat (take n two_chunks))) 2 ≡ none))
        (inl refl) (inl refl);
  ends = inl refl;
}

made : make_window 2 ≡ some first_window
unfolding make_window
made = refl

transfer : IsTransfer server client 2 two_chunks 2 first_window 1 [] []
transfer = record {
  reading = reading;
  same = refl;
  fits = omega arith;
  filled = omega arith;
  made = made;
  positive = omega arith;
  small = omega arith;
  number = omega arith;
  sendings = tt;
  asked = tt;
}

abbrev p0 : Place
p0 = first_place first_window []

abbrev c0 : Site
c0 = first_site first_window 1 []

abbrev datagram0 : List ℕ
datagram0 = 0 ∷ 0 ∷ 0 ∷ 0 ∷ 0 ∷ 0 ∷ 16 ∷ 65 ∷ 66 ∷ []

abbrev datagram1 : List ℕ
datagram1 = 0 ∷ 0 ∷ 0 ∷ 1 ∷ 0 ∷ 0 ∷ 16 ∷ 67 ∷ []

-- Both chunks are sent.
abbrev p5 : Place
p5 =
    serve server 2
      (answer server 2 timeout (serve server 2 (answer server 2 timeout (serve server 2 p0))))

run5 : Runs server client 2 p0 c0 p5 c0
run5 = Runs.serves _ _ (
    Runs.answers timeout _ _
      (Runs.serves _ _ (Runs.answers timeout _ _ (Runs.serves _ _ Runs.begins) tt)) tt)

sent5 : (sender_at p5).sent ≡ datagram1 ∷ datagram0 ∷ []
unfolding serve answer open_turn use_read send_data_packet create_pdu add_pdu slot_index open_answer
sent5 = refl

-- The second chunk arrives, then the first one, and rcopy flushes its window.
abbrev c3 : Site
c3 =
    advance_client client 2
      (listen client 2 (arrives datagram0) (listen client 2 (arrives datagram1) c0))

run8 : Runs server client 2 p0 c0 p5 c3
unfolding serve answer open_turn use_read send_data_packet create_pdu add_pdu slot_index open_answer
run8 = Runs.advances _ _ (
    Runs.listens (arrives datagram0) _ _
      (Runs.listens (arrives datagram1) _ _ run5 (inr (Memᴰ.head refl, λ z. omega arith)))
      (inr (Memᴰ.tail (Memᴰ.head refl), λ z. omega arith)))

abbrev rr2 : List ℕ
rr2 = 0 ∷ 0 ∷ 0 ∷ 3 ∷ 0 ∷ 0 ∷ 5 ∷ 0 ∷ 0 ∷ 0 ∷ 2 ∷ []

copied8 : (receiver_at c3).file ≡ 65 ∷ 66 ∷ 67 ∷ []
unfolding listen advance_client in_order_answer in_order_response in_order_ahead in_order_expected
    accept write process_pdu fields send_rr create_pdu send_eof_ack send_srejs srej_rounds send_srej
    add_pdu slot_index buffering_answer buffering_response buffering_expected flush flush_rounds
    flush_turn flush_pdu flush_next get_pdu remove_pdu check_pdu_valid
copied8 = refl

Runs-Prefix_example : Prefix (receiver_at c3).file (concat two_chunks)
Runs-Prefix_example =
    Runs-Prefix server client 2 two_chunks 2 first_window 1 [] [] transfer p5 c3 run8

-- The child hears of it, reads the end of the file, and rcopy acknowledges it.
abbrev p8 : Place
p8 = serve server 2 (answer server 2 (arrives rr2) (serve server 2 p5))

abbrev datagram2 : List ℕ
datagram2 = 0 ∷ 0 ∷ 0 ∷ 2 ∷ 0 ∷ 0 ∷ 10 ∷ 0 ∷ []

abbrev c4 : Site
c4 = listen client 2 (arrives datagram2) c3

run11 : Runs server client 2 p0 c0 p8 c3
unfolding listen advance_client in_order_answer in_order_response in_order_ahead in_order_expected
    accept write process_pdu fields send_rr create_pdu send_eof_ack send_srejs srej_rounds send_srej
    add_pdu slot_index buffering_answer buffering_response buffering_expected flush flush_rounds
    flush_turn flush_pdu flush_next get_pdu remove_pdu check_pdu_valid
run11 =
    Runs.serves _ _ (
      Runs.answers (arrives rr2) _ _ (Runs.serves _ _ run8)
        (inr (Memᴰ.head refl, λ z. omega arith)))

run12 : Runs server client 2 p0 c0 p8 c4
unfolding serve answer open_turn use_read send_data_packet create_pdu add_pdu slot_index open_answer
    open_response closed_turn closed_response closed_answer process_pdu fields process_rr
    read_number cleaning_up_with_rr cleaning get_pdu remove_pdu send_eof eof_turn
run12 = Runs.listens (arrives datagram2) _ _ run11 (inr (Memᴰ.head refl, λ z. omega arith))

abbrev eof_ack : List ℕ
eof_ack = 0 ∷ 0 ∷ 0 ∷ 4 ∷ 0 ∷ 0 ∷ 32 ∷ 0 ∷ []

acked : Memᴰ eof_ack (receiver_at c4).sent
unfolding listen advance_client in_order_answer in_order_response in_order_ahead in_order_expected
    accept write process_pdu fields send_rr create_pdu send_eof_ack send_srejs srej_rounds send_srej
    add_pdu slot_index buffering_answer buffering_response buffering_expected flush flush_rounds
    flush_turn flush_pdu flush_next get_pdu remove_pdu check_pdu_valid
acked = Memᴰ.head refl

Runs-eof_ack_example : (receiver_at c4).file ≡ concat two_chunks
Runs-eof_ack_example =
    Runs-eof_ack server client 2 two_chunks 2 first_window 1 [] [] transfer p8 c4 eof_ack run12
      acked refl

Runs-stands_example :
    (st : Rcopy.State) × (r : Rcopy.Receiver) × (c3 ≡ Site.stands st r)
    × ((st ≡ Rcopy.State.done)
        ⊎ (((sender_at p5).window.lower ≤ r.window.current)
            × (r.window.current ≤ (sender_at p5).window.current)))
Runs-stands_example =
    Runs-stands server client 2 two_chunks 2 first_window 1 [] [] transfer p5 c3 run8

-- A response to the file name that comes after the transfer has begun is written as the first chunk.
abbrev response : List ℕ
response = 0 ∷ 0 ∷ 0 ∷ 0 ∷ 0 ∷ 0 ∷ 9 ∷ 1 ∷ []

late_response : (receiver_at (listen client 2 (arrives response) c0)).file ≡ 1 ∷ []
unfolding listen in_order_answer in_order_response in_order_expected accept write process_pdu fields
    send_rr create_pdu
late_response = refl
