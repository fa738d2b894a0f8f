-- ===== src/Core.antt =====
-- The worker's core (device/core/src): sessions, the control lease, the retry cache, and the
-- dispatch of requests to a backend.
pub mod Types
pub mod Monad
pub mod Lifecycle
pub mod Admission
pub mod Requests
pub mod Screen
pub mod Process
pub mod Handle
pub mod Control
pub mod Revocation
pub mod Departure
pub mod Retry
mod Examples
