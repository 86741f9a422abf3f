-- ===== src/Server/State.antt =====
-- The states of project_3/server.h, what a child process holds while it sends, and the calls of the
-- system that it makes.
use remotecopy.Base.{ℕ, Bool, Option, List}
use remotecopy.Window.{WindowArray}

pub data State : Type 0 where
  start done filename window_open window_closed end_of_file : State

-- What is not of this program. `open_input` is whether `open(fname, O_RDONLY)` returns a positive
-- descriptor; `read_input` is `read` at an offset for a number of bytes, `none` for an error;
-- `stack_byte` is what an uninitialised byte of the stack holds.
pub record System : Type 0 where
  pub in_cksum : List ℕ → ℕ
  pub stack_byte : ℕ
  pub open_input : List ℕ → Bool
  pub read_input : ℕ → ℕ → Option (List ℕ)

-- The window, the offset of the input file's descriptor, and the datagrams given to `safeSendto`,
-- the newest first.
pub record Sender : Type 0 where
  pub window : WindowArray
  pub offset : ℕ
  pub sent : List (List ℕ)

-- A sender and the number of timeouts in a row.
pub record Patience : Type 0 where
  pub sender : Sender
  pub count : ℕ
