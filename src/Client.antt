-- ===== src/Client.antt =====
-- The command line client (cli/src/lib.rs, main.rs): its connection to a worker, what it takes for
-- a picture, and the commands that need control.
pub mod Endpoint
pub mod Chord
pub mod Png
pub mod Calls
pub mod Commands
pub mod Answers
pub mod Leases
pub mod Slices
pub mod Chunks
pub mod Scans
pub mod Pictures
pub mod Received
pub mod Chords
pub mod Presses
mod Examples
mod Typing
