-- ===== src/Crypto/Cipher/InStep.antt =====
-- A receiver that has seen no number beyond the sender's last stays so, packet by packet.
use shin_vpn.Prelude.{ℕ, ◌+◌, ◌≤◌, Bytes, false, Option, ◌≡◌, sym, ◌∙◌, arith}
use shin_vpn.Crypto.Replay.{AntiReplayWindow, check_and_update, in_window}
use shin_vpn.Crypto.Replay.Window.{spent}
use shin_vpn.Crypto.Aead.{Aead}
use shin_vpn.Crypto.Cipher.{ShinCipher, encrypt, decrypt}
use shin_vpn.Crypto.Cipher.Channel.{SharesKey, decrypt-filter}
use shin_vpn.Crypto.Cipher.Nonces.{encrypt-keeps}

pub record InStep (s r : ShinCipher) : Type 0 where
  pub shares : SharesKey s r
  pub behind : r.rx_replay.max_seq ≤ s.tx_seq

pub InStep-fresh : (s r : ShinCipher) → InStep s r → spent r.rx_replay (s.tx_seq + 1) ≡ false
unfolding spent
InStep-fresh s r h = let behind = h.behind in ground arith

max_seq-le :
    (w : AntiReplayWindow) (seq n : ℕ)
    → w.max_seq ≤ n
    → seq ≤ n
    → (check_and_update w seq).0.max_seq ≤ n
unfolding check_and_update in_window
max_seq-le w seq n p q = ground arith

module _ (aead : Aead) where
  pub decrypt-InStep :
      (s r : ShinCipher) (p ct : Bytes) (ad ad' : Option Bytes) (seq : ℕ)
      → InStep s r
      → seq ≡ s.tx_seq + 1
      → InStep (encrypt aead s p ad).0 (decrypt aead r seq ct ad').0
  decrypt-InStep s r p ct ad ad' seq h e =
      let (next, session, key) = encrypt-keeps aead s p ad in
      let (window, key', session') = decrypt-filter aead r seq ct ad' in
      let behind = h.behind in
      record {
        shares = record {
          key = key ∙ (h.shares.key ∙ sym key');
          session = session ∙ (h.shares.session ∙ sym session');
        };
        behind =
            rw (window, next)
              (max_seq-le r.rx_replay seq (s.tx_seq + 1) (omega arith) (omega arith));
      }
