-- ===== src/Protocol.antt =====
-- shinvpn/protocol: the constants, the header, the frames and the parser.
pub mod Constants
pub mod Header
pub mod Frames
pub mod Parse
pub mod Payloads
