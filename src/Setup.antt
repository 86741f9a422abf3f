-- ===== src/Setup.antt =====
-- The setup packet: what filename of project_3/rcopy.c sends, and what filename of
-- project_3/server.c makes of it.
mod Tests
use remotecopy.Base.{
  Bool, true, false, take, take_all, ℕ, ◌+◌, ◌≤◌, ◌<◌, ◌^◌, ◌≡◌, ◌≢◌, refl, ap, ◌∙◌, none, some,
  List, [], ◌∷◌, ◌++◌, length, All, htonl, ntohl-htonl, arith, ==-ne, le→ltb,
}
use remotecopy.Base.Control.{Result, ok, ◌>>=◌}
use remotecopy.Protocol.{
  file_ok, file_not_ok, filename_flag, filename_response_flag, max_filename_length,
}
use remotecopy.Pdu.{Pdu, create_pdu, process_pdu, IsChecksum}
use remotecopy.Pdu.RoundTrip.{length-create_pdu, process_pdu-create_pdu}
use remotecopy.Rcopy.State.{System as ClientSystem}
use remotecopy.Server.State.{State, System as ServerSystem}
use remotecopy.Rcopy.Process.{Arguments, setup_pdu, too_short}
use remotecopy.Rcopy.Args.{arg, arguments_of, check_args, check_args-bounds}
use remotecopy.Server.Parent.{setup_buffer_length}
use remotecopy.Base.Atoi.{atoi-lt}
use remotecopy.Server.Process.{
  Child, c_string, setup_fields, response_byte, response_state, filename, answer_setup,
}

-- A name without a NUL is read whole.
c_string-whole : (name : List ℕ) → All (λ b. b ≢ 0) name → c_string name ≡ name
unfolding c_string
c_string-whole [] h = refl
c_string-whole (b ∷ name) (ne, h) = rw (==-ne b 0 ne) (ap (λ t. b ∷ t) (c_string-whole name h))

setup_fields-htonl :
    (window_size buffer_size : ℕ) (name : List ℕ)
    → window_size < 2 ^ 32
    → buffer_size < 2 ^ 32
    → length name ≤ max_filename_length
    → All (λ b. b ≢ 0) name
    → setup_fields (htonl window_size ++ htonl buffer_size ++ name)
      ≡ ok (window_size, buffer_size, name)
unfolding setup_fields
setup_fields-htonl window_size buffer_size name w b short whole = rw (
  le→ltb max_filename_length (length name) short,
  ntohl-htonl window_size w,
  ntohl-htonl buffer_size b,
  c_string-whole name whole,
)

length-setup_pdu :
    (client : ClientSystem) (args : Arguments) (seq : ℕ)
    → length (setup_pdu client args seq) ≡ 15 + length args.from_file
unfolding setup_pdu
length-setup_pdu client args seq = omega (
  arith,
  length-create_pdu client.in_cksum seq filename_flag
      (htonl args.window_size ++ htonl args.buffer_size ++ args.from_file),
)

filename-parsed :
    (server : ServerSystem) (buf : List ℕ) (c : Child) (p : Pdu) (f : ℕ × ℕ × List ℕ)
    → process_pdu server.in_cksum buf ≡ some p
    → setup_fields p.payload ≡ ok f
    → filename server buf c ≡ answer_setup server p.sequence_number f c
unfolding filename
filename-parsed server buf c p f e q =
    ap
      (λ o. elim o [
        | none ↦ ok (State.done, c)
        | some p' ↦ setup_fields p'.payload >>= λ f'. answer_setup server p'.sequence_number f' c
      ])
      e
    ∙ ap (λ r. r >>= λ f'. answer_setup server p.sequence_number f' c) q

filename_found :
    (client : ClientSystem) (server : ServerSystem) (args : Arguments) (seq : ℕ)
    → (c : Child) → IsChecksum client.in_cksum
    → server.in_cksum ≡ client.in_cksum
    → seq < 2 ^ 32
    → args.window_size < 2 ^ 32
    → args.buffer_size < 2 ^ 32
    → length args.from_file ≤ max_filename_length
    → All (λ b. b ≢ 0) args.from_file
    → filename server (setup_pdu client args seq) c
      ≡ ok (
        response_state (server.open_input args.from_file),
        record c {
          window_size = args.window_size;
          buf_size = args.buffer_size;
          sent =
              create_pdu server.in_cksum seq filename_response_flag
                (response_byte (server.open_input args.from_file) ∷ [])
              ∷ c.sent;
        },
      )
unfolding setup_pdu answer_setup
filename_found client server args seq c law same s w b short whole =
    filename-parsed server (setup_pdu client args seq) c
      (record {
        sequence_number = seq;
        recv_flag = filename_flag;
        payload = htonl args.window_size ++ htonl args.buffer_size ++ args.from_file;
      })
      (args.window_size, args.buffer_size, args.from_file)
      (ap (λ k. process_pdu k (setup_pdu client args seq)) same
        ∙ process_pdu-create_pdu client.in_cksum law seq filename_flag
            (htonl args.window_size ++ htonl args.buffer_size ++ args.from_file) s)
      (setup_fields-htonl args.window_size args.buffer_size args.from_file w b short whole)

-- The server's filename, given the setup packet that rcopy's filename sends, takes over the window
-- size and the buffer size; if the file of that name can be opened, it answers FILE_OK under the
-- packet's sequence number and goes on to WINDOW_OPEN, and if not, it answers FILE_NOT_OK and goes
-- on to DONE. Both use the same checksum, which satisfies its law; sequence number and sizes fit 32
-- bits, and the name has at most 100 bytes and no NUL.
pub filename-setup_pdu :
    (client : ClientSystem) (server : ServerSystem) (args : Arguments) (seq : ℕ)
    → (c : Child) → IsChecksum client.in_cksum
    → server.in_cksum ≡ client.in_cksum
    → seq < 2 ^ 32
    → args.window_size < 2 ^ 32
    → args.buffer_size < 2 ^ 32
    → length args.from_file ≤ max_filename_length
    → All (λ b. b ≢ 0) args.from_file
    → (server.open_input args.from_file ≡ true
        → filename server (setup_pdu client args seq) c
          ≡ ok (
            State.window_open,
            record c {
              window_size = args.window_size;
              buf_size = args.buffer_size;
              sent = create_pdu server.in_cksum seq filename_response_flag (file_ok ∷ []) ∷ c.sent;
            },
          ))
      × (server.open_input args.from_file ≡ false
          → filename server (setup_pdu client args seq) c
            ≡ ok (
              State.done,
              record c {
                window_size = args.window_size;
                buf_size = args.buffer_size;
                sent =
                    create_pdu server.in_cksum seq filename_response_flag (file_not_ok ∷ [])
                    ∷ c.sent;
              },
            ))
filename-setup_pdu client server args seq c law same s w b short whole = (
  λ q. filename_found client server args seq c law same s w b short whole ∙ ap answered q,
  λ q. filename_found client server args seq c law same s w b short whole ∙ ap answered q,
)
  where
    answered : Bool → Result (State × Child)
    answered found = ok (
      response_state found,
      record c {
        window_size = args.window_size;
        buf_size = args.buffer_size;
        sent =
            create_pdu server.in_cksum seq filename_response_flag (response_byte found ∷ [])
            ∷ c.sent;
      },
    )

-- For arguments that rcopy's checkArgs accepts, the setup packet fits the buffer that rcopy's
-- filename builds it in and the buffer into which the server's parent process receives it, and the
-- server's filename, given what is received there, takes over the window size and the buffer size;
-- if the file of that name can be opened, it answers FILE_OK and goes on to WINDOW_OPEN, and if
-- not, it answers FILE_NOT_OK and goes on to DONE. Both use the same checksum, which satisfies its
-- law, and the name has no NUL.
pub check_args-filename :
    (client : ClientSystem) (server : ServerSystem) (argv : List (List ℕ)) (c : Child)
    → check_args argv ≡ none
    → IsChecksum client.in_cksum
    → server.in_cksum ≡ client.in_cksum
    → All (λ b. b ≢ 0) (arguments_of argv).from_file
    → (too_short client (arguments_of argv) ≡ false)
      × (server.open_input (arguments_of argv).from_file ≡ true
          → filename server (take setup_buffer_length (setup_pdu client (arguments_of argv) 0)) c
            ≡ ok (
              State.window_open,
              record c {
                window_size = (arguments_of argv).window_size;
                buf_size = (arguments_of argv).buffer_size;
                sent = create_pdu server.in_cksum 0 filename_response_flag (file_ok ∷ []) ∷ c.sent;
              },
            ))
      × (server.open_input (arguments_of argv).from_file ≡ false
          → filename server (take setup_buffer_length (setup_pdu client (arguments_of argv) 0)) c
            ≡ ok (
              State.done,
              record c {
                window_size = (arguments_of argv).window_size;
                buf_size = (arguments_of argv).buffer_size;
                sent =
                    create_pdu server.in_cksum 0 filename_response_flag (file_not_ok ∷ []) ∷ c.sent;
              },
            ))
check_args-filename client server argv c accepted law same whole =
    (ground (arith, bounds), λ q. received ∙ answers.0 q, λ q. received ∙ answers.1 q)
  where
    bounds :
        (length (arguments_of argv).from_file ≤ 100)
        × (108 ≤ (arguments_of argv).buffer_size)
        × ((arguments_of argv).buffer_size ≤ 1400)
    bounds = check_args-bounds argv accepted

    received :
        filename server (take setup_buffer_length (setup_pdu client (arguments_of argv) 0)) c
        ≡ filename server (setup_pdu client (arguments_of argv) 0) c
    received =
        ap (λ buf. filename server buf c)
          (take_all setup_buffer_length (setup_pdu client (arguments_of argv) 0)
            (omega (arith, bounds, length-setup_pdu client (arguments_of argv) 0)))

    answers :
        (server.open_input (arguments_of argv).from_file ≡ true
          → filename server (setup_pdu client (arguments_of argv) 0) c
            ≡ ok (
              State.window_open,
              record c {
                window_size = (arguments_of argv).window_size;
                buf_size = (arguments_of argv).buffer_size;
                sent = create_pdu server.in_cksum 0 filename_response_flag (file_ok ∷ []) ∷ c.sent;
              },
            ))
        × (server.open_input (arguments_of argv).from_file ≡ false
            → filename server (setup_pdu client (arguments_of argv) 0) c
              ≡ ok (
                State.done,
                record c {
                  window_size = (arguments_of argv).window_size;
                  buf_size = (arguments_of argv).buffer_size;
                  sent =
                      create_pdu server.in_cksum 0 filename_response_flag (file_not_ok ∷ [])
                      ∷ c.sent;
                },
              ))
    answers =
        filename-setup_pdu client server (arguments_of argv) 0 c law same (omega arith)
          (atoi-lt (arg argv 3)) (atoi-lt (arg argv 4)) (omega (arith, bounds)) whole
