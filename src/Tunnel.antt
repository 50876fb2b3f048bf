-- ===== src/Tunnel.antt =====
-- What the client decides about packets, domains and processes (shinvpn/tunnel).
pub mod Domain
pub mod Bloom
pub mod Trie
pub mod Adblock
pub mod MultiHop
pub mod Pathfinder
pub mod ProcessRouter
pub mod Shell
pub mod KillSwitch
pub mod DnsShield
pub mod Routing
pub mod Proxy
