-- ===== src/Rcopy.antt =====
-- project_3/rcopy.c: the receiver. `State` and `Send` hold its state, the file that it writes and
-- the functions that send, `Transfer` the states IN_ORDER, BUFFERING and FLUSH, `Process` the other
-- states and the main loop; the other modules hold the proofs.
pub mod State
pub mod Send
pub mod Transfer
pub mod Process
pub mod Args
pub mod Genuine
pub mod Start
pub mod Invariant
pub mod Storing
pub mod Later
pub mod Write
pub mod Turns
pub mod Buffer
pub mod Flush
pub mod Runs
pub mod Copy
pub mod Sockets
pub mod Asking
pub mod Termination
mod Tests
