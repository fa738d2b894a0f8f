-- ===== src/Capture.antt =====
-- Screen capture and input injection through an X server (device/capture/src).
pub mod Types
pub mod Server
pub mod Topology
pub mod Events
pub mod Usages
pub mod Keyboard
pub mod Input
pub mod Reads
pub mod Held
pub mod Tracking
pub mod Released
pub mod Revisions
pub mod Transaction
pub mod Resize
pub mod Image
pub mod Images
pub mod Encoding
pub mod Screenshot
pub mod Frames
pub mod Resized
pub mod Seen
pub mod Goals
pub mod Confirmed
pub mod Plans
pub mod Sample
mod Examples
mod Observations
mod Changes
