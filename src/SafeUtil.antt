-- ===== src/SafeUtil.antt =====
-- project_3/safeUtil.c: system calls whose errors end the process.
use remotecopy.Base.{ℕ, Option, none, some, List, [], ◌∷◌}
use remotecopy.Posix.{
  Address, Call, Posix, Process, ◌>>=◌, ◌>>◌, pure, exit, failure, attempt, must,
}

module _ (sys : Posix) where
  -- The source address and its length are not results here.
  unfoldable pub safe_recvfrom : ℕ → ℕ → ℕ → Process ℕ
  safe_recvfrom socket_num len flags = must sys failure (Call.recvfrom socket_num len flags)

  unfoldable pub safe_sendto : ℕ → List ℕ → ℕ → Address → Process ℕ
  safe_sendto socket_num buf flags a = must sys failure (Call.sendto socket_num buf flags a)

  unfoldable pub safe_recv : ℕ → ℕ → ℕ → Process ℕ
  safe_recv socket_num len flags = must sys failure (Call.recv socket_num len flags)

  unfoldable pub safe_send : ℕ → List ℕ → ℕ → Process ℕ
  safe_send socket_num buf flags = must sys failure (Call.send socket_num buf flags)

  -- A pointer that is not NULL, or the end of the process.
  abbrev pub allocated : List ℕ → Option ℕ → Process ℕ
  allocated text (some p) = pure p
  allocated text none = attempt sys (Call.print text) >> exit failure

  unfoldable pub srealloc : ℕ → ℕ → Process ℕ
  srealloc ptr size = attempt sys (Call.realloc ptr size) >>= allocated (size ∷ [])

  unfoldable pub s_calloc : ℕ → ℕ → Process ℕ
  s_calloc nmemb size = must sys failure (Call.calloc nmemb size)
