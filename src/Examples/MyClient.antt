-- ===== src/Examples/MyClient.antt =====
-- project_3/myClient.c: one line of the standard input is sent to a server.
use remotecopy.Base.{
  ℕ, zero, suc, ◌<◌, ◌≤◌, ◌≡◌, ◌≢◌, refl, ap, not, true, List, [], ◌∷◌, ◌++◌, All, length,
  length-append, replicate, get_or, ◌==◌, ==-ne, if◌then◌else◌, arith,
}
use remotecopy.Base.Atoi.{atoi}
use remotecopy.Posix.{Posix, Call, Process, ◌>>=◌, ◌>>◌, pure, exit, attempt}
use remotecopy.Networks.{tcp_client_setup}
use remotecopy.SafeUtil.{safe_send}
use remotecopy.Server.Process.{c_string}

abbrev pub maxbuf : ℕ
maxbuf = 1024

-- The characters that are stored, with room for so many; at the end of the input `getchar` returns
-- -1, which the `char` holds as the byte 255.
unfoldable pub read_chars : ℕ → List ℕ → List ℕ
read_chars zero input = []
read_chars (suc room) [] = 255 ∷ read_chars room []
read_chars (suc room) (c ∷ input) =
    let rest = read_chars room input in if c == 10 then [] else c ∷ rest

-- The bytes of the buffer that are set; their number is the result.
unfoldable pub read_from_stdin : List ℕ → List ℕ
unfolding read_chars
read_from_stdin input = read_chars 1023 input ++ 0 ∷ []

-- "Enter data: ", the prompt of readFromStdin.
abbrev enter_data : List ℕ
enter_data = 69 ∷ 110 ∷ 116 ∷ 101 ∷ 114 ∷ 32 ∷ 100 ∷ 97 ∷ 116 ∷ 97 ∷ 58 ∷ 32 ∷ []

module _ (sys : Posix) where
  unfoldable pub send_to_server : ℕ → List ℕ → Process ℕ
  unfolding safe_send c_string read_from_stdin
  send_to_server socket_num input = do
    attempt sys (Call.print enter_data)
    let buf = read_from_stdin input
    attempt sys (Call.print (c_string buf ++ length buf ∷ []))
    sent ← safe_send sys socket_num buf 0
    attempt sys (Call.print (sent ∷ []))
    pure sent

  -- checkArgs: the number of arguments.
  unfoldable pub check_args : List (List ℕ) → Process ℕ
  check_args argv = if not (length argv == 3) then exit 1 else pure 0

  unfoldable pub main : List (List ℕ) → List ℕ → Process ℕ
  unfolding check_args tcp_client_setup send_to_server
  main argv input = do
    check_args argv
    s ← tcp_client_setup sys (get_or argv 1 []) (atoi (get_or argv 2 [])) true
    send_to_server s input
    attempt sys (Call.close s)
    pure 0

length-read_chars : (room : ℕ) (input : List ℕ) → length (read_chars room input) ≤ room
unfolding read_chars
length-read_chars zero input = omega arith
length-read_chars (suc room) [] = omega (arith, length-read_chars room [])
length-read_chars (suc room) (c ∷ input) = ground (arith, length-read_chars room input)

read_chars-line :
    (room : ℕ) (text rest : List ℕ)
    → All (λ c. c ≢ 10) text
    → length text < room
    → read_chars room (text ++ 10 ∷ rest) ≡ text
unfolding read_chars
read_chars-line zero text rest h k = absurd (omega arith)
read_chars-line (suc room) [] rest h k = refl
read_chars-line (suc room) (c ∷ text) rest (ne, h) k =
    rw (==-ne c 10 ne) (ap (λ t. c ∷ t) (read_chars-line room text rest h (omega arith)))

read_chars-end : (room : ℕ) → read_chars room [] ≡ replicate room 255
unfolding read_chars
read_chars-end zero = refl
read_chars-end (suc room) = ap (λ t. 255 ∷ t) (read_chars-end room)

-- readFromStdin stays within its buffer for every input; a line that is short enough is stored
-- without its end and with a NUL behind it; and at the end of the input the buffer is filled with
-- bytes 255.
pub read_from_stdin_lem :
    (input : List ℕ)
    → (length (read_from_stdin input) ≤ maxbuf)
      × ((text rest : List ℕ)
          → All (λ c. c ≢ 10) text
          → length text < 1023
          → read_from_stdin (text ++ 10 ∷ rest) ≡ text ++ 0 ∷ [])
      × (read_from_stdin [] ≡ replicate 1023 255 ++ 0 ∷ [])
unfolding read_from_stdin
read_from_stdin_lem input = (
  omega (arith, length-append (read_chars 1023 input) (0 ∷ []), length-read_chars 1023 input),
  λ text rest h k. ap (λ t. t ++ 0 ∷ []) (read_chars-line 1023 text rest h k),
  ap (λ t. t ++ 0 ∷ []) (read_chars-end 1023),
)
