-- ===== src/Tests.antt =====
-- Runs at concrete inputs.
mod Toys
mod Crypto
mod Protocol
mod Server
mod Transport
mod Tunnel
mod Daemon
mod Client
mod Proxy
mod Files
mod System
