-- ===== src/Terminal.antt =====
-- The terminal backend (device/terminal/src/lib.rs): a pseudo-terminal whose output is kept in a
-- bounded replay history, so that a client can detach and resume. `State` is what the mutex
-- guards; `History`, `Drain` and `Monitor` are the functions on it; `Api` holds the calls of
-- `Pty`; `Steps` puts calls and the monitor thread into one step relation. The other modules are
-- about them.
pub mod State
pub mod History
pub mod Drain
pub mod Monitor
pub mod Api
pub mod Runs
pub mod Invariant
pub mod Progress
pub mod Steps
pub mod Histories
pub mod Delivery
pub mod Sequences
pub mod Shutdown
mod Examples
