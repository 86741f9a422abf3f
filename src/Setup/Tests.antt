-- ===== src/Setup/Tests.antt =====
-- The setup packet at a concrete input: a name of two characters, windows of five packets and
-- chunks of 300 bytes.
use remotecopy.Base.{none, false, take, ℕ, ◌≡◌, refl, true, some, List, [], ◌∷◌, length, arith}
use remotecopy.Base.Control.{ok}
use remotecopy.Pdu.{create_pdu, IsChecksum}
use remotecopy.Base.Atoi.{atoi}
use remotecopy.Rcopy.Args.{arguments_of, check_args}
use remotecopy.Server.Parent.{setup_buffer_length}
use remotecopy.Setup.{check_args-filename, filename-setup_pdu}
use remotecopy.Rcopy.State.{System as ClientSystem}
use remotecopy.Server.State.{State, System as ServerSystem}
use remotecopy.Rcopy.Process.{Arguments, setup_pdu, too_short}
use remotecopy.Server.Process.{fresh_child, filename}

-- A checksum that every buffer passes.
abbrev no_cksum : List ℕ → ℕ
no_cksum bytes = 0

law : IsChecksum no_cksum
law = record { word = λ bytes. omega arith; verifies = λ a b c d rest. refl }

abbrev client : ClientSystem
client = record {
  in_cksum = no_cksum;
  stack_byte = 0;
  open_output = true;
  write_output = λ file bytes. some (length bytes);
}

abbrev server : ServerSystem
server = record {
  in_cksum = no_cksum;
  stack_byte = 0;
  open_input = λ name. true;
  read_input = λ offset size. some [];
}

abbrev args : Arguments
args = record { from_file = 97 ∷ 98 ∷ []; window_size = 5; buffer_size = 300 }

filename-setup_pdu_example :
    (server.open_input args.from_file ≡ true
      → filename server (setup_pdu client args 0) fresh_child
        ≡ ok (
          State.window_open,
          record fresh_child {
            window_size = args.window_size;
            buf_size = args.buffer_size;
            sent = create_pdu no_cksum 0 9 (1 ∷ []) ∷ [];
          },
        ))
    × (server.open_input args.from_file ≡ false
        → filename server (setup_pdu client args 0) fresh_child
          ≡ ok (
            State.done,
            record fresh_child {
              window_size = args.window_size;
              buf_size = args.buffer_size;
              sent = create_pdu no_cksum 0 9 (0 ∷ []) ∷ [];
            },
          ))
filename-setup_pdu_example =
    filename-setup_pdu client server args 0 fresh_child law refl (omega arith) (omega arith)
      (omega arith) (omega arith) (λ z. omega arith, (λ z. omega arith, tt))

-- rcopy ab cd 5 300 0 h 1
abbrev argv : List (List ℕ)
argv =
    (114 ∷ [])
    ∷ (97 ∷ 98 ∷ [])
    ∷ (99 ∷ 100 ∷ [])
    ∷ (53 ∷ [])
    ∷ (51 ∷ 48 ∷ 48 ∷ [])
    ∷ (48 ∷ [])
    ∷ (104 ∷ [])
    ∷ (49 ∷ [])
    ∷ []

read_size : atoi (51 ∷ 48 ∷ 48 ∷ []) ≡ 300
unfolding atoi
read_size = refl

accepted : check_args argv ≡ none
unfolding check_args atoi
accepted = refl

check_args-filename_example :
    (too_short client (arguments_of argv) ≡ false)
    × (server.open_input (arguments_of argv).from_file ≡ true
        → filename server
            (take setup_buffer_length (setup_pdu client (arguments_of argv) 0))
            fresh_child
          ≡ ok (
            State.window_open,
            record fresh_child {
              window_size = (arguments_of argv).window_size;
              buf_size = (arguments_of argv).buffer_size;
              sent = create_pdu no_cksum 0 9 (1 ∷ []) ∷ [];
            },
          ))
    × (server.open_input (arguments_of argv).from_file ≡ false
        → filename server
            (take setup_buffer_length (setup_pdu client (arguments_of argv) 0))
            fresh_child
          ≡ ok (
            State.done,
            record fresh_child {
              window_size = (arguments_of argv).window_size;
              buf_size = (arguments_of argv).buffer_size;
              sent = create_pdu no_cksum 0 9 (0 ∷ []) ∷ [];
            },
          ))
check_args-filename_example =
    check_args-filename client server argv fresh_child accepted law refl
      (λ z. omega arith, (λ z. omega arith, tt))
