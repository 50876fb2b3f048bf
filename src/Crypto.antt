-- ===== src/Crypto.antt =====
-- shinvpn/crypto: the replay filter, the AEAD cipher and the handshake.
pub mod Replay
pub mod Aead
pub mod Cipher
pub mod Primitives
pub mod Handshake
pub mod Keys
pub mod Profiles
