-- ===== src/Wire.antt =====
-- The records between the command line client (cli/src/lib.rs) and the worker
-- (device/core/src/wire.rs).
pub mod Messages
pub mod Exchange
pub mod Replies
mod Examples
