-- ===== src/Crypto/Cipher.antt =====
-- `ShinCipher` of shinvpn/crypto/cipher.py. A method returns the object after the call beside its
-- result: what was written before a raise stays written.
pub mod Channel
pub mod Nonces
pub mod InStep
use shin_vpn.Prelude.{
  ℕ, ◌+◌, ◌*◌, ◌^◌, Bytes, ◌++◌, Bool, true, false, not, ◌||◌, Option, Result, ok, err, value_error,
  ◌>>=◌, length, ltb, leb, ◌==◌, if◌then◌else◌,
}
use shin_vpn.Prelude.Struct.{pack_le}
use shin_vpn.Crypto.Replay.{AntiReplayWindow, init, check_and_update}
use shin_vpn.Crypto.Aead.{Aead}

pub record ShinCipher : Type 0 where
  pub key : Bytes
  pub session_id : ℕ
  pub is_initiator : Bool
  pub tx_seq : ℕ
  pub rx_replay : AntiReplayWindow
  pub bytes_encrypted : ℕ
  pub bytes_decrypted : ℕ

abbrev pub rekey_bytes_threshold : ℕ
rekey_bytes_threshold = 1024 * 1024 * 1024

abbrev pub rekey_packets_threshold : ℕ
rekey_packets_threshold = 2 ^ 24

unfoldable pub new_cipher : Bytes → ℕ → Bool → Result ShinCipher
new_cipher key session_id is_initiator =
    if not (length key == 32)
    then err value_error
    else ok (record {
      key = key;
      session_id = session_id;
      is_initiator = is_initiator;
      tx_seq = 0;
      rx_replay = init 128;
      bytes_encrypted = 0;
      bytes_decrypted = 0;
    })

unfoldable pub should_rekey : ShinCipher → Bool
should_rekey c = leb rekey_bytes_threshold c.bytes_encrypted || leb rekey_packets_threshold c.tx_seq

-- struct.pack("<IQ", session_id, seq)
unfoldable pub build_nonce : ℕ → ℕ → Result Bytes
build_nonce session_id seq = do a ← pack_le 4 session_id; b ← pack_le 8 seq; ok (a ++ b)

module _ (aead : Aead) where
  encrypt_with : ShinCipher → Bytes → Option Bytes → Result Bytes → ShinCipher × Result (ℕ × Bytes)
  encrypt_with c plaintext ad (err e) = (c, err e)
  encrypt_with c plaintext ad (ok nonce) =
      let ciphertext = aead.seal c.key nonce plaintext ad in
      (
        record c { bytes_encrypted = c.bytes_encrypted + length ciphertext },
        ok (c.tx_seq, ciphertext),
      )

  unfoldable pub encrypt : ShinCipher → Bytes → Option Bytes → ShinCipher × Result (ℕ × Bytes)
  unfolding encrypt_with
  encrypt c plaintext ad =
      let c' = record c { tx_seq = c.tx_seq + 1 } in
      encrypt_with c' plaintext ad (build_nonce c'.session_id c'.tx_seq)

  decrypted : ShinCipher → Bytes → Result Bytes → ShinCipher × Result Bytes
  decrypted c ciphertext (err e) = (c, err e)
  decrypted c ciphertext (ok plaintext) =
      (record c { bytes_decrypted = c.bytes_decrypted + length ciphertext }, ok plaintext)

  -- The replay filter is updated first, and stays so where the tag is wrong.
  unfoldable pub decrypt : ShinCipher → ℕ → Bytes → Option Bytes → ShinCipher × Result Bytes
  unfolding decrypted
  decrypt c seq ciphertext ad =
      let (window, passed) = check_and_update c.rx_replay seq in
      let c' = record c { rx_replay = window } in
      if not passed
      then (c', err value_error)
      else decrypted c' ciphertext
          (build_nonce c.session_id seq >>= λ nonce. aead.open_ c.key nonce ciphertext ad)
