-- ===== src/Setup.antt =====
-- How the phones of the dashboard are attached to the network.
pub mod Tunnel
pub mod Registration
pub mod Initialize
