-- ===== src/Transport.antt =====
-- What dresses the packets on the wire (shinvpn/transport/obfuscation.py).
pub mod Obfuscation
pub mod Udp
pub mod Stealth
