-- ===== src/Rcopy/Tests.antt =====
-- project_3/rcopy.c at concrete inputs: a file of three bytes that comes in two chunks, and an input
-- for each theorem on the receiver.
use remotecopy.Base.{
  ℕ, ◌≤◌, ◌<◌, ◌≡◌, refl, inl, inr, some, none, List, [], ◌∷◌, length, get_elem?, true, ◌+◌, ◌≢◌,
  arith,
}
use remotecopy.Base.Chunks.{concat, Prefix}
use remotecopy.Base.Control.{timeout, arrives, Turn, again, leave, crash, TurnIs}
use remotecopy.Base.Machine.{IsFinal}
use remotecopy.Pdu.{Pdu, create_pdu, process_pdu, fields}
use remotecopy.Window.{WindowArray, make_window, slot_index, add_pdu}
use remotecopy.Rcopy.State.{State, System, Receiver}
use remotecopy.Rcopy.Send.{write, send_rr, send_srejs, srej_rounds, send_srej, send_eof_ack}
use remotecopy.Rcopy.Transfer.{
  in_order_answer, in_order_response, buffering_answer, buffering_expected, in_order_expected,
  in_order_ahead, accept, buffering_response, flush,
}
use remotecopy.Rcopy.Process.{Arguments, is_done, switch, process_file}
use remotecopy.Rcopy.Start.{first-InState}
use remotecopy.Rcopy.Turns.{Timely, IsTimely, InState, Settled, OrderLeft, in_order_response-Is}
use remotecopy.Rcopy.Buffer.{Buffering, BufferLeft, buffering_response-Is}
use remotecopy.Rcopy.Flush.{flush-Is}
use remotecopy.Rcopy.Runs.{HeardBy, Reaches, Reaches-InState}
use remotecopy.Rcopy.Copy.{Reaches-Prefix, Reaches-eof_ack}
use remotecopy.Rcopy.Termination.{process_file-IsFinal}

abbrev world : System
world = record {
  in_cksum = λ bytes. 0;
  stack_byte = 0;
  open_output = true;
  write_output = λ file bytes. some (length bytes);
}

abbrev two_chunks : List (List ℕ)
two_chunks = (65 ∷ 66 ∷ []) ∷ (67 ∷ []) ∷ []

abbrev first_window : WindowArray
first_window = record {
  array = none ∷ none ∷ [];
  upper = 2;
  lower = 0;
  current = 0;
  window_size = 2;
  highest = 0;
}

abbrev first_receiver : Receiver
first_receiver = record { window = first_window; file = []; sequence_number = 1; sent = [] }

abbrev datagram0 : List ℕ
datagram0 = 0 ∷ 0 ∷ 0 ∷ 0 ∷ 0 ∷ 0 ∷ 16 ∷ 65 ∷ 66 ∷ []

abbrev datagram1 : List ℕ
datagram1 = 0 ∷ 0 ∷ 0 ∷ 1 ∷ 0 ∷ 0 ∷ 16 ∷ 67 ∷ []

abbrev datagram2 : List ℕ
datagram2 = 0 ∷ 0 ∷ 0 ∷ 2 ∷ 0 ∷ 0 ∷ 10 ∷ 0 ∷ []

abbrev carried : Turn Receiver State → Receiver
carried (again r) = r
carried (leave st r) = r
carried (crash f) = first_receiver

abbrev answer : List ℕ → Receiver → Turn Receiver State
answer datagram r = in_order_answer world 2 (arrives datagram) r

abbrev receiver1 : Receiver
receiver1 = carried (answer datagram0 first_receiver)

abbrev receiver2 : Receiver
receiver2 = carried (answer datagram1 receiver1)

abbrev receiver3 : Receiver
receiver3 = carried (answer datagram2 receiver2)

made : make_window 2 ≡ some first_window
unfolding make_window
made = refl

ready : InState world 2 two_chunks 2 2 0 State.in_order first_receiver
ready =
    first-InState world 2 two_chunks 2 2 1 first_window [] made (omega arith) (omega arith)
      (omega arith) tt

-- A chunk that comes to its place in the window is timely.
IsTimely-chunk :
    (n flag current : ℕ) (c d : List ℕ)
    → get_elem? two_chunks n ≡ some c
    → 0 < length c
    → flag ≢ 10
    → n < 2
    → n < current + 2
    → length d ≤ 9
    → fields d ≡ some (record { sequence_number = n; recv_flag = flag; payload = c })
    → IsTimely two_chunks 2 9 current 2 d
        (record { sequence_number = n; recv_flag = flag; payload = c })
IsTimely-chunk n flag current c d e pos ne before within short parsed = record {
  genuine = inl (ne, e, pos, before);
  known = omega arith;
  within = within;
  short = short;
  parsed = parsed;
}

hears0 : HeardBy world 2 two_chunks 2 2 0 first_receiver (arrives datagram0)
unfolding process_pdu fields
hears0 = inr (
    IsTimely-chunk 0 16 0 (65 ∷ 66 ∷ []) datagram0 refl (omega arith) (λ z. omega arith)
      (omega arith) (omega arith) (omega arith) refl)

hears1 : HeardBy world 2 two_chunks 2 2 0 receiver1 (arrives datagram1)
unfolding in_order_answer in_order_response in_order_expected accept write process_pdu fields
    send_rr create_pdu send_eof_ack
hears1 = inr (
    IsTimely-chunk 1 16 1 (67 ∷ []) datagram1 refl (omega arith) (λ z. omega arith) (omega arith)
      (omega arith) (omega arith) refl)

hears2 : HeardBy world 2 two_chunks 2 2 0 receiver2 (arrives datagram2)
unfolding in_order_answer in_order_response in_order_expected accept write process_pdu fields
    send_rr create_pdu send_eof_ack
hears2 = inr (record {
  genuine = inr (refl, refl, omega arith);
  known = omega arith;
  within = omega arith;
  short = omega arith;
  parsed = refl;
})

run1 : Reaches world 2 two_chunks 2 2 0 first_receiver State.in_order receiver1
unfolding in_order_answer in_order_response in_order_expected accept write process_pdu fields
    send_rr create_pdu send_eof_ack
run1 =
    Reaches.in_orders (arrives datagram0) first_receiver State.in_order receiver1 Reaches.starts
      hears0 refl

run2 : Reaches world 2 two_chunks 2 2 0 first_receiver State.in_order receiver2
unfolding in_order_answer in_order_response in_order_expected accept write process_pdu fields
    send_rr create_pdu send_eof_ack
run2 = Reaches.in_orders (arrives datagram1) receiver1 State.in_order receiver2 run1 hears1 refl

run3 : Reaches world 2 two_chunks 2 2 0 first_receiver State.done receiver3
unfolding in_order_answer in_order_response in_order_expected accept write process_pdu fields
    send_rr create_pdu send_eof_ack
run3 = Reaches.in_orders (arrives datagram2) receiver2 State.done receiver3 run2 hears2 refl

Reaches-Prefix_example : Prefix receiver2.file (concat two_chunks)
Reaches-Prefix_example =
    Reaches-Prefix world 2 two_chunks 2 2 0 (omega arith) (omega arith) first_receiver ready
      State.in_order receiver2 run2

abbrev newest : List ℕ
newest = 0 ∷ 0 ∷ 0 ∷ 3 ∷ 0 ∷ 0 ∷ 32 ∷ 0 ∷ []

sent3 : receiver3.sent ≡ newest ∷ receiver2.sent
unfolding in_order_answer in_order_response in_order_expected accept write process_pdu fields
    send_rr create_pdu send_eof_ack
sent3 = refl

Reaches-eof_ack_example : receiver3.file ≡ concat two_chunks
Reaches-eof_ack_example =
    Reaches-eof_ack world 2 two_chunks 2 2 0 (omega arith) (omega arith) first_receiver ready
      State.done receiver3 newest receiver2.sent run3 sent3 refl

abbrev arguments : Arguments
arguments = record { from_file = 97 ∷ []; window_size = 2; buffer_size = 2 }

run-IsFinal :
    IsFinal is_done
      (switch world arguments)
      (process_file world arguments (timeout ∷ arrives datagram0 ∷ []))
run-IsFinal = process_file-IsFinal world arguments (timeout ∷ arrives datagram0 ∷ [])

copied : receiver3.file ≡ 65 ∷ 66 ∷ 67 ∷ []
unfolding in_order_answer in_order_response in_order_expected accept write process_pdu fields
    send_rr create_pdu send_eof_ack
copied = refl

first-InState_example : InState world 2 two_chunks 2 2 0 State.in_order first_receiver
first-InState_example =
    first-InState world 2 two_chunks 2 2 1 first_window [] made (omega arith) (omega arith)
      (omega arith) tt

-- The second chunk comes first.
abbrev pdu0 : Pdu
pdu0 = record { sequence_number = 0; recv_flag = 16; payload = 65 ∷ 66 ∷ [] }

abbrev pdu1 : Pdu
pdu1 = record { sequence_number = 1; recv_flag = 16; payload = 67 ∷ [] }

early1 : Timely two_chunks 2 9 0 2 datagram1 (some pdu1)
unfolding fields
early1 = inr (
    IsTimely-chunk 1 16 0 (67 ∷ []) datagram1 refl (omega arith) (λ z. omega arith) (omega arith)
      (omega arith) (omega arith) refl)

in_order_response-Is_example :
    TurnIs
      (λ r. ⊥)
      (OrderLeft world 2 two_chunks 2 2 0)
      (λ f. ⊥)
      (in_order_response world 2 datagram1 (some pdu1) first_receiver)
in_order_response-Is_example =
    in_order_response-Is world 2 two_chunks 2 2 0 (omega arith) (omega arith) datagram1 (some pdu1)
      first_receiver ready early1

abbrev waiting_receiver : Receiver
waiting_receiver = carried (answer datagram1 first_receiver)

run_ahead : Reaches world 2 two_chunks 2 2 0 first_receiver State.buffering waiting_receiver
unfolding in_order_answer in_order_response in_order_ahead in_order_expected accept write
    process_pdu fields send_rr create_pdu send_eof_ack send_srejs srej_rounds send_srej add_pdu
    slot_index buffering_answer buffering_response buffering_expected
run_ahead =
    Reaches.in_orders (arrives datagram1) first_receiver State.buffering waiting_receiver
      Reaches.starts early1 refl

waits : Buffering world 2 two_chunks 2 2 0 0 2 waiting_receiver
unfolding in_order_answer in_order_response in_order_ahead in_order_expected accept write
    process_pdu fields send_rr create_pdu send_eof_ack send_srejs srej_rounds send_srej add_pdu
    slot_index buffering_answer buffering_response buffering_expected
waits = (
  Reaches-InState world 2 two_chunks 2 2 0 (omega arith) (omega arith) first_receiver ready
      State.buffering waiting_receiver run_ahead,
  refl,
  refl,
)

here0 : Timely two_chunks 2 9 0 2 datagram0 (some pdu0)
unfolding fields
here0 = inr (
    IsTimely-chunk 0 16 0 (65 ∷ 66 ∷ []) datagram0 refl (omega arith) (λ z. omega arith)
      (omega arith) (omega arith) (omega arith) refl)

buffering_response-Is_example :
    TurnIs
      (Buffering world 2 two_chunks 2 2 0 0 2)
      (BufferLeft world 2 two_chunks 2 2 0 (omega arith) (omega arith) 0 2)
      (λ f. ⊥)
      (buffering_response world 2 datagram0 (some pdu0) waiting_receiver)
buffering_response-Is_example =
    buffering_response-Is world 2 two_chunks 2 2 0 (omega arith) (omega arith) 0 2 datagram0
      (some pdu0) waiting_receiver waits here0

abbrev full_receiver : Receiver
full_receiver = carried (buffering_answer world 2 (arrives datagram0) waiting_receiver)

run_full : Reaches world 2 two_chunks 2 2 0 first_receiver State.flush full_receiver
unfolding in_order_answer in_order_response in_order_ahead in_order_expected accept write
    process_pdu fields send_rr create_pdu send_eof_ack send_srejs srej_rounds send_srej add_pdu
    slot_index buffering_answer buffering_response buffering_expected
run_full =
    Reaches.buffers (arrives datagram0) waiting_receiver State.flush full_receiver run_ahead here0
      refl

flush-Is_example :
    TurnIs (λ r. ⊥) (Settled world 2 two_chunks 2 2 0) (λ f. ⊥) (flush world 2 full_receiver)
flush-Is_example = flush-Is world 2 two_chunks 2 2 0 full_receiver (
    Reaches-InState world 2 two_chunks 2 2 0 (omega arith) (omega arith) first_receiver ready
      State.flush full_receiver run_full)
