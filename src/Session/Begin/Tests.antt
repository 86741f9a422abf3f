-- ===== src/Session/Begin/Tests.antt =====
-- rcopy asks for a file in two chunks, with a window of five packets and chunks of 300 bytes.
use remotecopy.Base.{
  ℕ, zero, suc, ◌≤◌, ◌<◌, ◌≡◌, refl, subst, ◌⊎◌, inl, inr, some, none, List, [], ◌∷◌, get_elem?,
  take, length, ◌==◌, if◌then◌else◌, arith, true,
}
use remotecopy.Base.Atoi.{atoi}
use remotecopy.Base.Chunks.{concat}
use remotecopy.Base.Control.{Event, timeout, arrives, returned, poll_loop}
use remotecopy.Pdu.{create_pdu}
use remotecopy.Window.{WindowArray, make_window}
use remotecopy.Server.State as Server
use remotecopy.Server.Parent.{setup_buffer_length}
use remotecopy.Server.Process.{process_client}
use remotecopy.Server.Turns.{IsReading}
use remotecopy.Server.Sending.{some-inj}
use remotecopy.Rcopy.State as Rcopy
use remotecopy.Rcopy.Args.{arguments_of, check_args}
use remotecopy.Rcopy.Process.{
  Client, fresh_client, setup_pdu, process_file, filename, ask_turn, ask_answer, ask_response,
}
use remotecopy.Session.Copy.{IsTransfer, first_place, first_site}
use remotecopy.Session.ProcessClient.{ChildComes}
use remotecopy.Session.ProcessFile.{ClientComes}
use remotecopy.Session.{Place, Site, Runs, listen}
use remotecopy.Session.Complete.{IsWorking}
use remotecopy.Session.Whole.{Ensues, EndsWith, events, Runs-process_file, process_file-copies}
use remotecopy.Rcopy.Transfer.{in_order_answer}
use mathlib.Core.List.{Memᴰ}
use remotecopy.Protocol.{data_packet_flag}
use remotecopy.Pdu.{process_pdu, fields}
use remotecopy.Window.{new_packet, add_pdu, slot_index}
use remotecopy.Server.Send.{send_data_packet}
use remotecopy.Server.Transfer.{open_turn, use_read, open_answer, open_response}
use remotecopy.Session.{serve, answer}
use remotecopy.Session.Answered.{heard_by_child, Runs-process_client, EndsWith as ChildEndsWith}
use remotecopy.Session.Begin.{IsRequest, response, programs-Come}

abbrev two_chunks : List (List ℕ)
two_chunks = (65 ∷ 66 ∷ []) ∷ (67 ∷ []) ∷ []

abbrev disk : ℕ → List ℕ
disk offset = if offset == 0 then 65 ∷ 66 ∷ [] else if offset == 2 then 67 ∷ [] else []

-- A checksum that every buffer passes.
abbrev no_cksum : List ℕ → ℕ
no_cksum bytes = 0

abbrev server : Server.System
server = record {
  in_cksum = no_cksum;
  stack_byte = 0;
  open_input = λ name. true;
  read_input = λ offset size. some (disk offset);
}

abbrev client : Rcopy.System
client = record {
  in_cksum = no_cksum;
  stack_byte = 0;
  open_output = true;
  write_output = λ file bytes. some (length bytes);
}

-- rcopy ab cd 5 300 0 h 1
abbrev argv : List (List ℕ)
argv =
    (114 ∷ [])
    ∷ (97 ∷ 98 ∷ [])
    ∷ (99 ∷ 100 ∷ [])
    ∷ (53 ∷ [])
    ∷ (51 ∷ 48 ∷ 48 ∷ [])
    ∷ (48 ∷ [])
    ∷ (104 ∷ [])
    ∷ (49 ∷ [])
    ∷ []

abbrev window : WindowArray
window = record {
  array = none ∷ none ∷ none ∷ none ∷ none ∷ [];
  upper = 5;
  lower = 0;
  current = 0;
  window_size = 5;
  highest = 0;
}

each_chunk :
    (P : ℕ → List ℕ → Type 0)
    → P 0 (65 ∷ 66 ∷ [])
    → P 1 (67 ∷ [])
    → (n : ℕ) (c : List ℕ) → get_elem? two_chunks n ≡ some c
    → P n c
each_chunk P p q zero c e = subst (P 0) (some-inj e) p
each_chunk P p q (suc zero) c e = subst (P 1) (some-inj e) q
each_chunk P p q (suc (suc n)) c e = absurd (cc)

reading : (size : ℕ) → 2 ≤ size → IsReading server size two_chunks
reading size h = record {
  sized = each_chunk (λ n c. length c ≤ size) (omega arith) (omega arith);
  filled = each_chunk (λ n c. 0 < length c) (omega arith) (omega arith);
  reads =
      each_chunk
        (λ n c.
          (server.read_input (length (concat (take n two_chunks))) size ≡ some c)
          ⊎ (server.read_input (length (concat (take n two_chunks))) size ≡ none))
        (inl refl) (inl refl);
  ends = inl refl;
}

request : IsRequest server client argv two_chunks window
unfolding check_args atoi make_window
request = record {
  accepted = refl;
  law = record { word = λ bytes. omega arith; verifies = λ a b c d rest. refl };
  same = refl;
  whole = (λ z. omega arith, (λ z. omega arith, tt));
  found = refl;
  writable = refl;
  reading = reading 300 (omega arith);
  made = refl;
  positive = omega arith;
  small = omega arith;
}

-- The response arrives after one timeout.
abbrev asking : List Event
asking = timeout ∷ arrives (response server) ∷ timeout ∷ []

abbrev setup : List ℕ
setup = setup_pdu client (arguments_of argv) 0

abbrev client_then : Client
client_then = record fresh_client { sequence_number = 1; sent = setup ∷ setup ∷ [] }

answered :
    filename client (arguments_of argv) asking fresh_client
    ≡ returned Rcopy.State.file_okay (timeout ∷ []) client_then
unfolding filename poll_loop ask_turn ask_answer ask_response setup_pdu create_pdu atoi
answered = refl

programs-Come_example :
    IsTransfer server client 300 two_chunks 5 window 1 (response server ∷ []) (setup ∷ setup ∷ [])
    × ChildComes server 300
        (first_place window (response server ∷ []))
        (timeout ∷ [])
        (process_client server (take setup_buffer_length setup) (timeout ∷ []))
    × ClientComes client
        (arguments_of argv)
        (first_site window 1 (setup ∷ setup ∷ []))
        (timeout ∷ [])
        (process_file client (arguments_of argv) asking)
unfolding atoi
programs-Come_example =
    programs-Come server client argv two_chunks window request (timeout ∷ []) asking (timeout ∷ [])
      client_then answered

-- The same without the events behind the response.
answered_only :
    filename client (arguments_of argv) (timeout ∷ arrives (response server) ∷ []) fresh_client
    ≡ returned Rcopy.State.file_okay [] client_then
unfolding filename poll_loop ask_turn ask_answer ask_response setup_pdu create_pdu atoi
answered_only = refl

-- rcopy hears nothing, and gives up.
abbrev silent_receiver : Rcopy.Receiver
silent_receiver = record {
  window = window;
  file = [];
  sequence_number = 1;
  sent = setup ∷ setup ∷ [];
}

gives_up :
    Ensues server client argv two_chunks window request
      (timeout ∷ arrives (response server) ∷ [])
      client_then
      answered_only
      (first_place window (response server ∷ []))
      (Site.stands Rcopy.State.done silent_receiver)
unfolding listen in_order_answer
gives_up =
    Runs.listens timeout (first_place window (response server ∷ []))
      (first_site window 1 (setup ∷ setup ∷ [])) Runs.begins tt

abbrev response_late : List Event
response_late = timeout ∷ arrives (response server) ∷ []

-- `heard` of that run is one timeout.
Runs-process_file_example : EndsWith client (arguments_of argv) silent_receiver (
    process_file client (arguments_of argv) (
      events server client argv two_chunks window request response_late client_then answered_only
        (first_place window (response server ∷ []))
        silent_receiver
        gives_up))
Runs-process_file_example =
    Runs-process_file server client argv two_chunks window request response_late client_then
      answered_only (first_place window (response server ∷ [])) silent_receiver gives_up

working : (size : ℕ) → IsWorking server client size two_chunks
working size = record {
  law = record { word = λ bytes. omega arith; verifies = λ a b c d rest. refl };
  reads =
      each_chunk (λ n c. server.read_input (length (concat (take n two_chunks))) size ≡ some c) refl
        refl;
  ends = refl;
  writes = λ file bytes. refl;
}

process_file-copies_example :
    (q : Place) × (r : Rcopy.Receiver) × (run : Ensues server client argv two_chunks window request
      response_late client_then answered_only q
      (Site.stands Rcopy.State.done r))
    × (c : Client) × (process_file client (arguments_of argv) (
          events server client argv two_chunks window request response_late client_then
            answered_only q r run)
        ≡ returned Rcopy.State.done [] c)
    × (c.file ≡ 65 ∷ 66 ∷ 67 ∷ [])
process_file-copies_example =
    process_file-copies server client argv two_chunks window request response_late client_then
      answered_only (working (arguments_of argv).buffer_size)

-- The child sends the first packet, hears a late copy of the setup packet, and gives up.
abbrev sender_then : Server.Sender
sender_then = record {
  window = record window {
    array =
        some (new_packet 0 (create_pdu no_cksum 0 data_packet_flag (65 ∷ 66 ∷ [])))
        ∷ none
        ∷ none
        ∷ none
        ∷ none
        ∷ [];
    current = 1;
  };
  offset = 2;
  sent = create_pdu no_cksum 0 data_packet_flag (65 ∷ 66 ∷ []) ∷ response server ∷ [];
}

setup_late :
    Ensues server client argv two_chunks window request response_late client_then answered_only
      (Place.stops Server.State.done sender_then)
      (first_site window 1 (setup ∷ setup ∷ []))
unfolding serve open_turn use_read send_data_packet answer open_answer open_response process_pdu
    fields setup_pdu create_pdu atoi add_pdu slot_index
setup_late =
    Runs.answers (arrives setup) _ (first_site window 1 (setup ∷ setup ∷ []))
      (Runs.serves (first_place window (response server ∷ []))
        (first_site window 1 (setup ∷ setup ∷ [])) Runs.begins)
      (inr (Memᴰ.head refl, λ e. omega arith))

Runs-process_client_example : ChildEndsWith server (arguments_of argv).buffer_size sender_then (
    process_client server (take setup_buffer_length setup) (
      heard_by_child server client
        (arguments_of argv).buffer_size
        (first_place window (response server ∷ []))
        (first_site window 1 (setup ∷ setup ∷ []))
        (Place.stops Server.State.done sender_then)
        (first_site window 1 (setup ∷ setup ∷ []))
        setup_late))
Runs-process_client_example =
    Runs-process_client server client argv two_chunks window request response_late client_then
      answered_only sender_then (first_site window 1 (setup ∷ setup ∷ [])) setup_late
