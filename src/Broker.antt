-- ===== src/Broker.antt =====
-- The capability broker (device/console/src/bin/socket-broker.rs): for each command of a root peer
-- it connects to the capture daemon and hands the peer the connected descriptor.
pub mod Kernel
pub mod Serve
pub mod Exchanges
pub mod Logged
pub mod Connected
pub mod Sent
pub mod Served
mod Examples
