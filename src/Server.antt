-- ===== src/Server.antt =====
-- project_3/server.c: the sender. `State` and `Send` hold its state and the functions that send,
-- `Transfer` the loops of the states WINDOW_OPEN, WINDOW_CLOSED and END_OF_FILE, `Process` the
-- states of a child process; the other modules hold the proofs.
pub mod State
pub mod Send
pub mod Transfer
pub mod Process
pub mod Parent
pub mod Invariant
pub mod Serving
pub mod Sending
pub mod Turns
pub mod Handlers
pub mod Waiting
pub mod Sockets
pub mod Silence
pub mod Start
pub mod Termination
pub mod Cleanup
mod Tests
