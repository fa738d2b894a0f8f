-- ===== src/Console.antt =====
-- The console (device/console/src): who owns the input devices and for how long, and the records of
-- a stream.
pub mod Owner
pub mod Lease
pub mod Devices
pub mod Exclusive
pub mod Deadlines
pub mod Held
pub mod Records
pub mod Headers
pub mod Framing
pub mod Repacked
pub mod StartCodes
mod Streams
mod Examples
