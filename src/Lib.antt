-- ===== src/Lib.antt =====
-- remotecopy: a verification of the file transfer in project_3, where rcopy copies a file from a
-- server over UDP with a sliding window, selective rejects and checksums.
--
-- The program's parts. `rcopy` sends a setup packet with the window size, the buffer size and a file
-- name; a child process of `server` answers, reads the file in chunks and sends them as numbered
-- packets; `rcopy` answers with RRs (all below a number has come), SREJs (a number is missing) and,
-- at the end, an EOF ACK. Both keep a window of packets, an array that is indexed by the number
-- modulo the window's size.
--
-- Which file models which part.
--   * Protocol: project_3/both.h, the constants.
--   * Pdu: project_3/pdu.c. createPDU is `create_pdu`, processPDU is `process_pdu`.
--   * Window: project_3/window.c and window.h, under the functions' own names.
--   * PollSet: project_3/pollLib.c, the descriptors that pollCall asks about.
--   * Server: project_3/server.c. `Server.State` has the states and the variables, `Server.Send`
--     send_data_packet, resend_data_packet, send_eof and cleaning_up_with_RR, `Server.Transfer`
--     window_open, window_closed and end_of_file, `Server.Process` filename and process_client.
--     The proofs: `Server.Invariant`, `Server.Serving` and `Server.Sending` for the
--     sender's invariant and the functions that send, `Server.Turns`, `Server.Handlers` and
--     `Server.Waiting` for one turn of each loop, `Server.Start` for the first sender,
--     `Server.Termination` and `Server.Cleanup` for process_client.
--   * Rcopy: project_3/rcopy.c. `Rcopy.State` and `Rcopy.Send` (sendRR, sendSREJ, the EOF ACK, the
--     writes), `Rcopy.Transfer` (in_order, buffering, flush), `Rcopy.Process` (filename, file_okay,
--     processFile). The proofs: `Rcopy.Genuine`, `Rcopy.Invariant` and `Rcopy.Storing` for
--     what is sent and the receiver's invariant, `Rcopy.Turns`, `Rcopy.Buffer` and `Rcopy.Flush` for
--     each state, `Rcopy.Start`, `Rcopy.Runs`, `Rcopy.Later` and `Rcopy.Copy` for whole runs,
--     `Rcopy.Termination`.
--   * Server.Parent: main, process_server, checkArgs and clean_up of project_3/server.c;
--     `Server.Sockets`: the sockets of parent and child; `Server.Silence`: a server that hears
--     nothing. Rcopy.Args: main, checkArgs and start of project_3/rcopy.c;
--     `Rcopy.Sockets`: the sockets and the poll set of filename, and clean_up; `Rcopy.Asking`: what it sends.
--   * Session: a child of the server, the network and rcopy together. `Session.serve` and
--     `Session.answer` are the child's steps before and after a poll, `Session.advance_client` and
--     `Session.listen` those of rcopy, `Session.Runs` what the two come to. The proofs:
--     `Session.Hearing` for what one side makes of the other one's datagrams, `Session.Sending` and
--     `Session.Receiving` for a step of each, `Session.Together` and `Session.Copy` for both,
--     `Session.Loops` and `Session.Refine` for the functions as sequences of steps,
--     `Session.States`, `Session.Rounds`, `Session.ProcessClient` and `Session.ProcessFile` for the
--     two main loops, `Session.Begin` for the way from rcopy's arguments into a transfer,
--     `Session.Trail`, `Session.Heard`, `Session.Whole` and `Session.Answered` for the whole programs
--     over what they hear in a transfer,
--     `Session.Delivery` and `Session.Complete` for a transfer in which each datagram arrives.
--   * Setup: the setup packet, from rcopy's arguments and filename to the server's.
--   * Pdu.Print and Window.Memory: printPDU, free_window and print_window.
--   * Posix: the system calls, and in `Posix.Descriptors` which descriptors are open behind them; Networks: project_3/networks.c; Lookup: project_3/gethostbyname.c;
--     SafeUtil: project_3/safeUtil.c; Examples: project_3/myClient.c and myServer.c.
--   * Base: names and lemmas that all share. `Base.Control` has the results of code that may run
--     into undefined behaviour and the loops over polls, `Base.Machine` the main loop of both
--     programs.
--
-- How state and operations correspond. A byte is a number, a buffer a list of bytes whose length is
-- the C length that goes with it. An `int32_t` is its bit pattern below 2 ^ 32 with the signed
-- reading written out; the host is little-endian. What C leaves undefined (an array index out of
-- bounds, a division by zero, a copy beyond a buffer, a read of bytes that nothing was written to)
-- is a `Fault`. Each call of pollCall takes the next of a list of events, a timeout or a datagram;
-- when the list is used up, a run waits. Each datagram that is sent is put before those in `sent`.
-- The state of a loop is passed from turn to turn; a turn goes on, is left for a state, or crashes.
--
-- What is not in src/, or is not the program's own, is a parameter: `in_cksum` of libcpe464 (with
-- `IsChecksum` where a theorem relies on it), the results of open, read and write, and what an
-- uninitialised byte of the stack holds; the answers of the system calls (`Posix`), of `fork`, and the
-- tests of `atof`. `malloc` succeeds for a size that is not negative. In the
-- transfer, a call that ends the process on an error (safeUtil.c) is taken to succeed.
--
-- Bounds and fuel. The loops over events recur on the list. cleaning_up_with_RR gets the distance of
-- the two numbers as rounds, flush one round more than the window's size, and the main loops six for
-- each event and six more; theorems say that these are enough. A flush whose rounds run out is at
-- the `Fault` `endless`. The theorems on transfer take a
-- file and a window that are together below 2 ^ 31 packets.
--
-- Not modelled: messages on the standard error, signals, and libcpe464, a copy of another project's
-- library. What the network loses, corrupts, repeats or reorders is in the events, or in the steps of
-- `Session.Runs`.
pub mod Base
pub mod Protocol
pub mod Pdu
pub mod Window
pub mod PollSet
pub mod Server
pub mod Rcopy
pub mod Session
pub mod Setup
pub mod Posix
pub mod Lookup
pub mod Networks
pub mod SafeUtil
pub mod Examples
