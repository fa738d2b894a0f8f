-- ===== src/Adapter.antt =====
-- The X11 adapter (device/core/src/x11_adapter.rs): the capture crate as a backend of the worker.
pub mod Translation
pub mod Methods
pub mod Contract
mod Examples
