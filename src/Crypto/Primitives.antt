-- ===== src/Crypto/Primitives.antt =====
-- What the handshake uses of X25519 and HKDF of the `cryptography` package and of HMAC-SHA256.
-- A key is its 32 raw bytes. `exchange` raises on a public key of small order.
use shin_vpn.Prelude.{Bytes, Result, length, ◌≡◌}

pub record Primitives : Type 0 where
  pub public_key : Bytes → Bytes
  pub exchange : Bytes → Bytes → Result Bytes
  pub hkdf : Bytes → Bytes → Bytes → Bytes
  pub hmac : Bytes → Bytes → Bytes
  -- Diffie-Hellman: both ends compute the same secret.
  pub exchange_agrees : (a b : Bytes) → exchange a (public_key b) ≡ exchange b (public_key a)
  pub length-public_key : (a : Bytes) → length (public_key a) ≡ 32
  pub length-hkdf : (salt info secret : Bytes) → length (hkdf salt info secret) ≡ 32
  pub length-hmac : (key message : Bytes) → length (hmac key message) ≡ 32
