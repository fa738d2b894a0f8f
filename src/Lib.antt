-- ===== src/Lib.antt =====
-- Verification library of DonkeyWork Desktop: the Rust programs that run on a managed host.
--
-- The worker (device/core) takes requests over a local socket, checks them against the policy of
-- the peer's uid, and lets one connection at a time control a desktop backend. The terminal backend
-- (device/terminal) runs a shell on a pseudo-terminal and keeps its output in a bounded history, so
-- that a client can detach and resume. The input service of the console lends the input devices to
-- one peer at a time, for a bounded time, and the capability broker hands root peers a connection to
-- the capture daemon. The capture crate (device/capture) is the desktop backend
-- over an X server, and the adapter in device/core makes it the worker's backend. The command line
-- client and the worker exchange records of one JSON header each, the replies with binary data; the
-- client closes its connection at the first failure.
--
-- Files:
-- * Base and its children: the names that all modules share; Boolean tests, lists over the native
--   numbers, results, hash maps as association lists, actions that change a state and may fail, and
--   contracts for them.
-- * Core (device/core/src/core.rs, backend.rs, Reply of wire.rs): Types has the data; Monad the
--   state-and-error sequencing; Lifecycle is release, maintain, disconnect, revoke_uid; Admission
--   is Core::new, effective, require, bound, guard; Requests and Screen hold the arms of dispatch;
--   Process is dispatch and process; Handle is handle of server.rs. Control, Revocation, Retry and
--   Departure are about them; Examples has concrete runs.
-- * Terminal (device/terminal/src/lib.rs): State is what the mutex guards; History is
--   expire_history and batch; Drain is drain; Monitor is monitor and terminate; Api holds write,
--   resize, read, detach, resume, close; Steps puts them in one step function. Runs, Invariant,
--   Progress, Histories, Delivery, Sequences and Shutdown are about them; Examples has concrete
--   runs.
-- * Console (device/console/src: bin/input-daemon.rs, input_device.rs, lib.rs): Owner is
--   SharedDevice, with the device and its reset as parameters; Lease is next_deadline and the
--   deadlines that serve keeps with it; Devices is hid_key, button_code, key, button and reset of
--   InputDevice, with the kernel's answers as a parameter. Exclusive, Deadlines and Held are about
--   them; Examples has concrete runs. Records and Headers are lib.rs of the same crate, over any
--   reader and writer; Framing, Repacked and StartCodes are about them, and Streams has concrete
--   runs.
-- * Capture (device/capture/src): Types is lib.rs; Server has the replies of the X server, the
--   calls as one interface, and X11Backend; Topology, Events, Input and Screenshot are x11.rs
--   (topology and checked_display; fake, key_event and release_all; inject; capture_next); Usages
--   and Keyboard are keyboard.rs; Transaction and Resize are resize.rs; Image is image.rs. Reads,
--   Held, Tracking, Released, Revisions, Images, Encoding, Frames, Resized, Seen, Goals, Confirmed
--   and Plans are about them; Sample is a small X server, and Examples, Observations and Changes
--   run on it.
-- * Wire (device/core/src/wire.rs, cli/src/lib.rs): Messages is read_request and write_reply of the
--   worker and write_record of the client, over abstract JSON values; its records are read by
--   read_record of Console/Records, which reads in the same way. Exchange and Replies are about
--   them; Examples has concrete runs.
-- * Input (device/console/src: bin/input-daemon.rs, input.rs, input_device.rs): Requests is input.rs;
--   Effects is move_to, wheel and what serve does for an event; Guards is read_guard; Reader and
--   Stream are FrameReader, remaining, send and unavailable; Daemon is what a peer's thread keeps and
--   what it asks of its surroundings, with locked and release_owned; Serve is serve and the thread of
--   a peer, by rounds of its loop. Quiet, Traces, Holding, Revoked, Acquired, Acted, Obeyed, Rounds
--   and Served are about what a thread does to the devices, Frames and Polls about the frames it
--   reads. Peers is main from its loop on, Crowd and Joined are about its threads, with lists in Counts;
--   Examples has concrete runs.
-- * Broker (device/console/src: bin/socket-broker.rs, validate_root_socket of lib.rs, peer_root of
--   input.rs): Kernel has the calls of the kernel and the log of a worker; Serve is capture_connect,
--   send_result, command and serve. Exchanges says how the calls may follow one another; Logged has
--   contracts about the log, and Connected, Sent and Served are about the parts of a worker; Examples
--   has a concrete run.
-- * Client (cli/src/lib.rs, main.rs): Endpoint has the checks of a context, a socket and its peer; Png is
--   validate_png, with the decoder as a parameter; Calls is read_record, Client::connect, call and
--   controlled; Chord and Commands are the commands of main.rs that need control. Answers and Leases
--   are about the connection, Slices, Chunks, Scans and Pictures about
--   validate_png, Received about replies of the worker, Chords and Presses about the key command;
--   Examples and Typing have concrete runs.
-- * Adapter (device/core/src/x11_adapter.rs): Translation is code, display and input; Methods is
--   the Backend implementation; Contract is about what the worker relies on; Examples has concrete
--   runs.
--
-- Conventions. An instant is a number of milliseconds, and every reading of a clock is an argument,
-- or in the capture crate an answer of the world beside those of the X server. Identifiers that the
-- code only compares (uuids, display and snapshot ids, lease ids) are numbers. A call that changes
-- a shared object returns the new state beside its result, so that what it wrote before an error
-- stays written. System calls, the desktop backend, the PNG encoder, the schema validator and the
-- equality of JSON values are parameters. The write loop of a terminal runs over a list of the
-- system's answers, and is none while these do not end it; all other loops are structural, and
-- drain has the 64 rounds of the source, and the scan of a picture a round for each byte, which is
-- enough. A display id is the number of its output, sorted by its
-- decimal digits as the source sorts the text. Error messages are dropped and kinds kept. The X
-- server is any type of worlds with the calls of x11rb as functions, each of which may fail and may
-- change the world; the deadline of the connection is one of these calls (arm). The backlog of
-- events is read for at most 1025 rounds, since the source refuses more than 1024. What the other
-- threads of the input daemon do is an answer of the surroundings of a thread at each use of the lock,
-- and its loop is followed for any number of rounds; a write to its peer that is interrupted more
-- often than is followed is an error of the model alone (unfinished), as in the broker.
--
-- Not modelled: sockets and threads themselves (the accept loop and the monitor of
-- device/core/src/server.rs), JSON text, the creation of the shell and the signals sent to its
-- process groups, the connection to the X server and its socket (connect and transport.rs of
-- device/capture), a failed allocation, the creation of the virtual devices, start-up, the loop
-- that accepts peers of the broker, which is alike, the other console daemons, the files of the
-- command line client and its commands that need no control. Numbers do not wrap where the
-- source bounds them before use.
mod Base
pub mod Terminal
pub mod Core
pub mod Console
pub mod Capture
pub mod Adapter
pub mod Broker
pub mod Wire
pub mod Input
pub mod Client
