-- ===== src/Input.antt =====
-- The input daemon of the console (device/console/src/bin/input-daemon.rs, input.rs): how a peer's
-- thread reads frames, keeps control, and acts on the devices.
pub mod Requests
pub mod Effects
pub mod Reader
pub mod Guards
pub mod Daemon
pub mod Stream
pub mod Serve
pub mod Quiet
pub mod Traces
pub mod Holding
pub mod Revoked
pub mod Acquired
pub mod Acted
pub mod Obeyed
pub mod Rounds
pub mod Served
pub mod Frames
pub mod Polls
pub mod Peers
pub mod Counts
pub mod Crowd
pub mod Joined
mod Examples
