-- ===== src/Crypto/Aead.antt =====
-- What the code uses of ChaCha20Poly1305 of the `cryptography` package, which is not part of the
-- repository: a function of key, nonce, text and associated data, and its inverse, which raises
-- InvalidTag. The tag adds 16 bytes.
use shin_vpn.Prelude.{◌+◌, Bytes, Option, Result, ok, length, ◌≡◌}

pub record Aead : Type 0 where
  pub seal : Bytes → Bytes → Bytes → Option Bytes → Bytes
  pub open_ : Bytes → Bytes → Bytes → Option Bytes → Result Bytes
  pub open_-seal :
      (key nonce plaintext : Bytes) (ad : Option Bytes)
      → open_ key nonce (seal key nonce plaintext ad) ad ≡ ok plaintext
  pub length-seal :
      (key nonce plaintext : Bytes) (ad : Option Bytes)
      → length (seal key nonce plaintext ad) ≡ length plaintext + 16
