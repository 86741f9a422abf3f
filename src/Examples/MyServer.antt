-- ===== src/Examples/MyServer.antt =====
-- project_3/myServer.c: one message of one client is received and printed.
use remotecopy.Base.{ℕ, true, Option, List, [], ◌∷◌, length, get_or, ltb, ◌==◌, if◌then◌else◌}
use remotecopy.Base.Atoi.{atoi}
use remotecopy.Posix.{Posix, Call, Process, ◌>>=◌, ◌>>◌, pure, exit, failure, attempt}
use remotecopy.Networks.{tcp_server_setup, tcp_accept}
use remotecopy.SafeUtil.{safe_recv}

abbrev pub maxbuf : ℕ
maxbuf = 1024

module _ (sys : Posix) where
  -- `message` is what a `recv` of so many bytes leaves in the buffer, as `%s` prints it.
  unfoldable pub recv_from_client : (ℕ → List ℕ) → ℕ → Process (Option ℕ)
  unfolding safe_recv
  recv_from_client message client_socket = do
    message_len ← safe_recv sys client_socket maxbuf 0
    attempt sys (Call.print (if ltb 0 message_len then message_len ∷ message message_len else []))

  unfoldable pub check_args : List (List ℕ) → Process ℕ
  check_args argv =
      if ltb 2 (length argv)
      then exit failure
      else pure (if length argv == 2 then atoi (get_or argv 1 []) else 0)

  unfoldable pub main : (ℕ → List ℕ) → List (List ℕ) → Process ℕ
  unfolding check_args tcp_server_setup tcp_accept recv_from_client
  main message argv = do
    port_number ← check_args argv
    main_server_socket ← tcp_server_setup sys port_number
    client_socket ← tcp_accept sys main_server_socket true
    recv_from_client message client_socket
    attempt sys (Call.close client_socket)
    attempt sys (Call.close main_server_socket)
    pure 0
