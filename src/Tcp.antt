-- ===== src/Tcp.antt =====
-- The small TCP stack of components/tailscale/tailscale.cpp, for servers on the device.
pub mod Checksum
pub mod Packet
pub mod Connection
pub mod Table
pub mod Echo
mod Tests
