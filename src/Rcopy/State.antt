-- ===== src/Rcopy/State.antt =====
-- The states of project_3/rcopy.h, what the program holds while it receives, and the calls of the
-- system that it makes.
use remotecopy.Base.{ℕ, Bool, Option, List}
use remotecopy.Window.{WindowArray}

pub data State : Type 0 where
  start filename file_okay in_order buffering flush done : State

-- What is not of this program. `open_output` is whether the output file could be opened;
-- `write_output` is the result of `write` for a file with some contents and some more bytes,
-- `none` for an error; `stack_byte` is what an uninitialised byte of the stack holds.
pub record System : Type 0 where
  pub in_cksum : List ℕ → ℕ
  pub stack_byte : ℕ
  pub open_output : Bool
  pub write_output : List ℕ → List ℕ → Option ℕ

-- The window, the contents of the output file, the sequence number of the next datagram to send,
-- and the datagrams given to `safeSendto`, the newest first.
pub record Receiver : Type 0 where
  pub window : WindowArray
  pub file : List ℕ
  pub sequence_number : ℕ
  pub sent : List (List ℕ)
