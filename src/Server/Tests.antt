-- ===== src/Server/Tests.antt =====
-- project_3/server.c at concrete inputs: a file of three bytes that is sent in two chunks, and an
-- input for each theorem on the sender.
use remotecopy.Base.{
  replicate, ◌++◌, ℕ, zero, suc, ◌≤◌, ◌<◌, ◌≡◌, refl, inl, ◌⊎◌, true, false, some, none, List, [],
  ◌∷◌, subst, take, length, get_elem?, arith, ◌==◌, if◌then◌else◌,
}
use remotecopy.Base.Chunks.{concat}
use remotecopy.Base.Control.{returned, timeout, TurnIs, OutcomeIs, ok, fault, Fault, uninitialised}
use remotecopy.Base.Machine.{IsFinal}
use remotecopy.Pdu.{Pdu, create_pdu}
use remotecopy.Window.{check_window_open, WindowArray, make_window}
use remotecopy.Server.State.{State, System, Sender, Patience}
use remotecopy.Server.Send.{
  send_data_packet, send_eof, resend_data_packet, cleaning_up_with_rr, read_number, safe_sendto,
}
use remotecopy.Server.Transfer.{
  window_closed, open_turn, open_response, closed_response, eof_response,
}
use remotecopy.Server.Process.{is_done, switch, process_client}
use remotecopy.Server.Silence.{repeated, window_closed-silence}
use remotecopy.Server.Start.{first-IsWithin}
use remotecopy.Server.Invariant.{cleaning_up_with_rr-Cleans, Cleans}
use remotecopy.Server.Serving.{IsServing, eof_packet, resend-held, resend-empty}
use remotecopy.Server.Sending.{some-inj, after_chunk, after_eof, send_data_packet_lem, send_eof_lem}
use remotecopy.Server.Turns.{IsReading, Heard, MayHear, IsWithin}
use remotecopy.Server.Handlers.{InState, OpenLeft, open_turn-Is, open_response-Is}
use remotecopy.Server.Waiting.{
  WaitState, IsClosed, IsEnding, AtTest, closed_response-Is, eof_response-Is,
}
use remotecopy.Server.Cleanup.{process_client-Uncleaned}
use remotecopy.Server.Termination.{process_client-IsFinal}

abbrev two_chunks : List (List ℕ)
two_chunks = (65 ∷ 66 ∷ []) ∷ (67 ∷ []) ∷ []

-- A disk with one file of the bytes 65, 66 and 67, read two bytes at a time.
abbrev disk : ℕ → List ℕ
disk offset = if offset == 0 then 65 ∷ 66 ∷ [] else if offset == 2 then 67 ∷ [] else []

abbrev world : System
world = record {
  in_cksum = λ bytes. 0;
  stack_byte = 0;
  open_input = λ name. true;
  read_input = λ offset size. some (disk offset);
}

abbrev first_window : WindowArray
first_window = record {
  array = none ∷ [];
  upper = 1;
  lower = 0;
  current = 0;
  window_size = 1;
  highest = 0;
}

abbrev Never : Fault → Type 0
Never f = ⊥

made : make_window 1 ≡ some first_window
unfolding make_window
made = refl

-- A property of the two chunks holds of each chunk.
each_chunk :
    (P : ℕ → List ℕ → Type 0)
    → P 0 (65 ∷ 66 ∷ [])
    → P 1 (67 ∷ [])
    → (n : ℕ) (c : List ℕ) → get_elem? two_chunks n ≡ some c
    → P n c
each_chunk P p q zero c e = subst (P 0) (some-inj e) p
each_chunk P p q (suc zero) c e = subst (P 1) (some-inj e) q
each_chunk P p q (suc (suc n)) c e = absurd (cc)

reading : IsReading world 2 two_chunks
reading = record {
  sized = each_chunk (λ n c. length c ≤ 2) (omega arith) (omega arith);
  filled = each_chunk (λ n c. 0 < length c) (omega arith) (omega arith);
  reads =
      each_chunk
        (λ n c.
          (world.read_input (length (concat (take n two_chunks))) 2 ≡ some c)
          ⊎ (world.read_input (length (concat (take n two_chunks))) 2 ≡ none))
        (inl refl) (inl refl);
  ends = inl refl;
}

abbrev first_sender : Sender
first_sender = record { window = first_window; offset = 0; sent = [] }

started : IsWithin world two_chunks 0 2 1 none first_sender
started = first-IsWithin world two_chunks 2 1 first_window [] made (omega arith) (omega arith) tt

-- The window is closed by the first chunk.
abbrev closed_sender : Sender
closed_sender = after_chunk world two_chunks (65 ∷ 66 ∷ []) first_sender

send_data_packet_lem_example :
    (send_data_packet world (65 ∷ 66 ∷ []) (record first_sender { offset = 2 }) ≡ ok closed_sender)
    × IsServing world two_chunks none closed_sender
send_data_packet_lem_example =
    send_data_packet_lem world two_chunks first_sender (65 ∷ 66 ∷ []) started.serving (omega arith)
      refl (omega arith)

sent_first :
    (send_data_packet world (65 ∷ 66 ∷ []) (record first_sender { offset = 2 }) ≡ ok closed_sender)
    × IsServing world two_chunks none closed_sender
sent_first =
    send_data_packet_lem world two_chunks first_sender (65 ∷ 66 ∷ []) started.serving (omega arith)
      refl (omega arith)

full : IsWithin world two_chunks 0 2 1 none closed_sender
full = record { serving = sent_first.1; from = omega arith; upto = omega arith; wide = refl }

room_left : InState world 2 two_chunks reading 0 2 1 Never State.window_open first_sender
room_left = started

open_turn-Is_example :
    TurnIs
      (InState world 2 two_chunks reading 0 2 1 Never State.window_open)
      (OpenLeft world 2 two_chunks reading 0 2 1 Never)
      Never
      (open_turn world 2 first_sender)
open_turn-Is_example =
    open_turn-Is world 2 two_chunks reading 0 2 1 Never first_sender (omega arith) room_left

-- An RR for the second chunk, as an answer to the first one.
abbrev rr1 : Pdu
rr1 = record { sequence_number = 1; recv_flag = 5; payload = 0 ∷ 0 ∷ 0 ∷ 1 ∷ [] }

heard_rr1 : MayHear Never 2 closed_sender (some rr1)
unfolding read_number
heard_rr1 = Heard.rr 1 refl refl (omega arith) (omega arith)

-- A SREJ for the first chunk.
abbrev srej0 : Pdu
srej0 = record { sequence_number = 1; recv_flag = 6; payload = 0 ∷ 0 ∷ 0 ∷ 0 ∷ [] }

heard_srej0 : MayHear Never 2 closed_sender (some srej0)
unfolding read_number
heard_srej0 = Heard.srej 0 refl refl (omega arith) (inl (omega arith))

open_response-Is_example :
    TurnIs
      (InState world 2 two_chunks reading 0 2 1 Never State.window_open)
      (InState world 2 two_chunks reading 0 2 1 Never)
      Never
      (open_response world 2 (some rr1) closed_sender)
open_response-Is_example =
    open_response-Is world 2 two_chunks reading 0 2 1 Never (some rr1) closed_sender full heard_rr1

abbrev patience : Patience
patience = record { sender = closed_sender; count = 3 }

shut : IsClosed world 2 two_chunks reading 0 2 1 Never patience
shut = (full, omega arith)

closed_response-Is_example :
    TurnIs
      (AtTest world 2 two_chunks reading 0 2 1 Never)
      (WaitState world 2 two_chunks reading 0 2 1 Never)
      Never
      (closed_response world 2 (some srej0) patience)
closed_response-Is_example =
    closed_response-Is world 2 two_chunks reading 0 2 1 Never (some srej0) patience shut heard_srej0

resend-held_example :
    resend_data_packet world 0 17 2 closed_sender
    ≡ ok (safe_sendto (create_pdu world.in_cksum 0 17 (65 ∷ 66 ∷ [])) closed_sender)
resend-held_example =
    resend-held world two_chunks none closed_sender 0 17 2 (65 ∷ 66 ∷ []) full.serving (omega arith)
      (omega arith) refl (omega arith)

unstored_again : resend_data_packet world 0 17 2 first_sender ≡ fault uninitialised
unstored_again =
    resend-empty world first_sender 0 17 2 started.serving.window.window (omega arith) refl

cleaning_up_with_rr-Cleans_example :
    Cleans world.in_cksum two_chunks none 1 closed_sender.window
      (cleaning_up_with_rr 1 closed_sender.window)
cleaning_up_with_rr-Cleans_example =
    cleaning_up_with_rr-Cleans world.in_cksum two_chunks none 1 closed_sender.window
      full.serving.window (omega arith)

-- A setup packet: windows of one packet, chunks of two bytes, and the name of one character.
abbrev datagram : List ℕ
datagram = 0 ∷ 0 ∷ 0 ∷ 0 ∷ 0 ∷ 0 ∷ 8 ∷ 0 ∷ 0 ∷ 0 ∷ 1 ∷ 0 ∷ 0 ∷ 0 ∷ 2 ∷ 97 ∷ []

process_client-IsFinal_example :
    IsFinal is_done (switch world datagram) (process_client world datagram (timeout ∷ []))
process_client-IsFinal_example = process_client-IsFinal world datagram (timeout ∷ [])

-- A window of three packets, with both chunks and the end of file in it.
abbrev wide_window : WindowArray
wide_window = record {
  array = none ∷ none ∷ none ∷ [];
  upper = 3;
  lower = 0;
  current = 0;
  window_size = 3;
  highest = 0;
}

wide : make_window 3 ≡ some wide_window
unfolding make_window
wide = refl

abbrev wide_sender : Sender
wide_sender = record { window = wide_window; offset = 0; sent = [] }

abbrev read_sender : Sender
read_sender =
    after_chunk world two_chunks (67 ∷ []) (after_chunk world two_chunks (65 ∷ 66 ∷ []) wide_sender)

wide_started : IsWithin world two_chunks 0 2 3 none wide_sender
wide_started =
    first-IsWithin world two_chunks 2 3 wide_window [] wide (omega arith) (omega arith) tt

all_read : IsServing world two_chunks none read_sender
all_read =
    (send_data_packet_lem world two_chunks (after_chunk world two_chunks (65 ∷ 66 ∷ []) wide_sender)
      (67 ∷ [])
      (send_data_packet_lem world two_chunks wide_sender (65 ∷ 66 ∷ []) wide_started.serving
        (omega arith) refl (omega arith)).1
      (omega arith) refl (omega arith)).1

send_eof_lem_example :
    (send_eof world read_sender ≡ ok (after_eof world two_chunks read_sender))
    × IsServing world two_chunks
        (some (eof_packet world 2))
        (after_eof world two_chunks read_sender)
send_eof_lem_example = send_eof_lem world two_chunks read_sender all_read (omega arith) refl

abbrev ending : Patience
ending = record { sender = after_eof world two_chunks read_sender; count = 0 }

sent_eof :
    (send_eof world read_sender ≡ ok (after_eof world two_chunks read_sender))
    × IsServing world two_chunks
        (some (eof_packet world 2))
        (after_eof world two_chunks read_sender)
sent_eof = send_eof_lem world two_chunks read_sender all_read (omega arith) refl

ended : IsEnding world 2 two_chunks reading 0 2 3 Never ending
ended = (record { serving = sent_eof.1; from = omega arith; upto = omega arith; wide = refl }, refl)

-- An RR for the end of file.
abbrev rr2 : Pdu
rr2 = record { sequence_number = 2; recv_flag = 5; payload = 0 ∷ 0 ∷ 0 ∷ 2 ∷ [] }

heard_rr2 : MayHear Never 2 ending.sender (some rr2)
unfolding read_number
heard_rr2 = Heard.rr 2 refl refl (omega arith) (omega arith)

eof_response-Is_example :
    TurnIs
      (IsEnding world 2 two_chunks reading 0 2 3 Never)
      (WaitState world 2 two_chunks reading 0 2 3 Never)
      Never
      (eof_response world 2 (some rr2) ending)
eof_response-Is_example =
    eof_response-Is world 2 two_chunks reading 0 2 3 Never (some rr2) ending ended heard_rr2

process_client-Uncleaned_example :
    OutcomeIs
      (λ e. Unit {0})
      (λ c. c.cleaned ≡ false)
      (λ st c. c.cleaned ≡ false)
      (λ f. Unit {0})
      (process_client world datagram (timeout ∷ []))
process_client-Uncleaned_example = process_client-Uncleaned world datagram (timeout ∷ [])

shut_window : check_window_open closed_sender.window ≡ false
shut_window = refl

window_closed-silence_example :
    window_closed world 2 (replicate 10 timeout ++ timeout ∷ []) closed_sender
    ≡ returned State.done (timeout ∷ []) (record {
      sender =
          repeated world 2 two_chunks none
            (65 ∷ 66 ∷ [])
            (omega arith)
            10
            (create_pdu world.in_cksum 0 18 (65 ∷ 66 ∷ []))
            closed_sender;
      count = 10;
    })
window_closed-silence_example =
    window_closed-silence world 2 two_chunks none (65 ∷ 66 ∷ []) (omega arith) closed_sender
      (timeout ∷ []) full.serving shut_window (omega arith) refl
