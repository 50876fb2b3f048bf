-- ===== src/Server.antt =====
-- The server (shinvpn/server).
pub mod IpPool
pub mod Session
pub mod Daemon
pub mod Config
