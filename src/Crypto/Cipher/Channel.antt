-- ===== src/Crypto/Cipher/Channel.antt =====
-- A sender's and a receiver's object with one key: what is delivered, and what is refused.
use shin_vpn.Prelude.{
  ℕ, ◌+◌, ◌≤◌, ◌<◌, ◌^◌, Bytes, List, [], ◌∷◌, ◌++◌, true, false, Option, Result, ok, err,
  value_error, invalid_tag, map, ◌≡◌, refl, sym, ap, ◌∙◌, arith,
}
use shin_vpn.Prelude.Struct.{le, pack_le-ok}
use shin_vpn.Crypto.Replay.{AntiReplayWindow, check_and_update}
use shin_vpn.Crypto.Replay.Window.{spent, check_and_update-answer, window_size-check_and_update}
use shin_vpn.Crypto.Replay.History.{run, accepted_once}
use shin_vpn.Crypto.Aead.{Aead}
use shin_vpn.Crypto.Cipher.{ShinCipher, build_nonce, encrypt_with, encrypt, decrypt}

pub build_nonce-ok :
    (session_id seq : ℕ)
    → session_id < 2 ^ 32
    → seq < 2 ^ 64
    → build_nonce session_id seq ≡ ok (le 4 session_id ++ le 8 seq)
unfolding build_nonce
build_nonce-ok session_id seq p q =
    rw (pack_le-ok 4 session_id (omega arith), pack_le-ok 8 seq (omega arith))

-- Sender and receiver of one direction of a session.
pub record SharesKey (s r : ShinCipher) : Type 0 where
  pub key : s.key ≡ r.key
  pub session : s.session_id ≡ r.session_id

module _ (aead : Aead) where
  pub decrypt-filter :
      (c : ShinCipher) (seq : ℕ) (ct : Bytes) (ad : Option Bytes)
      → ((decrypt aead c seq ct ad).0.rx_replay ≡ (check_and_update c.rx_replay seq).0)
        × ((decrypt aead c seq ct ad).0.key ≡ c.key)
        × ((decrypt aead c seq ct ad).0.session_id ≡ c.session_id)
  unfolding decrypt
  decrypt-filter c seq ct ad = ground arith

  decrypt-refused :
      (c : ShinCipher) (seq : ℕ) (ct : Bytes) (ad : Option Bytes)
      → (check_and_update c.rx_replay seq).1 ≡ false
      → (decrypt aead c seq ct ad).1 ≡ err value_error
  unfolding decrypt
  decrypt-refused c seq ct ad h = ground arith

  decrypt-passed :
      (c : ShinCipher) (seq : ℕ) (ct : Bytes) (ad : Option Bytes) (n p : Bytes)
      → (check_and_update c.rx_replay seq).1 ≡ true
      → build_nonce c.session_id seq ≡ ok n
      → aead.open_ c.key n ct ad ≡ ok p
      → (decrypt aead c seq ct ad).1 ≡ ok p
  unfolding decrypt
  decrypt-passed c seq ct ad n p h e o = ground arith

  decrypt-accepted :
      (c : ShinCipher) (seq : ℕ) (ct : Bytes) (ad : Option Bytes) (p : Bytes)
      → (decrypt aead c seq ct ad).1 ≡ ok p
      → (check_and_update c.rx_replay seq).1 ≡ true
  unfolding decrypt
  decrypt-accepted c seq ct ad p h = ground arith

  encrypt_with_inv :
      (c : ShinCipher) (p ct : Bytes) (ad : Option Bytes) (seq : ℕ) (r : Result Bytes)
      → (encrypt_with aead c p ad r).1 ≡ ok (seq, ct)
      → (n : Bytes) × (r ≡ ok n) × (seq ≡ c.tx_seq) × (ct ≡ aead.seal c.key n p ad)
  unfolding encrypt_with
  encrypt_with_inv c p ct ad seq (ok n) h = (n, refl, ground arith, ground arith)
  encrypt_with_inv c p ct ad seq (err e) h = absurd (cc)

  pub encrypt-ok :
      (c : ShinCipher) (p n : Bytes) (ad : Option Bytes)
      → build_nonce c.session_id (c.tx_seq + 1) ≡ ok n
      → (encrypt aead c p ad).1 ≡ ok (c.tx_seq + 1, aead.seal c.key n p ad)
  unfolding encrypt encrypt_with
  encrypt-ok c p n ad h = rw h refl

  pub encrypt_inv :
      (c : ShinCipher) (p ct : Bytes) (ad : Option Bytes) (seq : ℕ)
      → (encrypt aead c p ad).1 ≡ ok (seq, ct)
      → (n : Bytes) × (build_nonce c.session_id seq ≡ ok n)
        × (seq ≡ c.tx_seq + 1)
        × (ct ≡ aead.seal c.key n p ad)
  unfolding encrypt
  encrypt_inv c p ct ad seq h =
      let c' = record c { tx_seq = c.tx_seq + 1 } in
      let (n, made, number, sealed) =
        encrypt_with_inv c' p ct ad seq (build_nonce c'.session_id c'.tx_seq) h in
      (n, rw number made, number, sealed)

  -- A packet that the receiver's filter has not spent is decrypted to what the sender encrypted.
  pub decrypt-encrypt :
      (s r : ShinCipher) (p ct : Bytes) (ad : Option Bytes) (seq : ℕ)
      → SharesKey s r
      → (encrypt aead s p ad).1 ≡ ok (seq, ct)
      → spent r.rx_replay seq ≡ false
      → (decrypt aead r seq ct ad).1 ≡ ok p
  decrypt-encrypt s r p ct ad seq k e fresh =
      let (n, nonce, number, sealed) = encrypt_inv s p ct ad seq e in
      let passes : (check_and_update r.rx_replay seq).1 ≡ true =
        ground (arith, check_and_update-answer r.rx_replay seq) in
      let nonce' : build_nonce r.session_id seq ≡ ok n =
        ap (λ (x : ℕ). build_nonce x seq) (sym k.session) ∙ nonce in
      let opened : aead.open_ r.key n ct ad ≡ ok p =
        rw (← k.key, sealed) (aead.open_-seal s.key n p ad) in
      decrypt-passed r seq ct ad n p passes nonce' opened

  -- Any packets handed to `decrypt`, whatever comes of them.
  unfoldable pub receive_all : ShinCipher → List (ℕ × Bytes × Option Bytes) → ShinCipher
  receive_all c [] = c
  receive_all c ((seq, ct, ad) ∷ ps) = receive_all (decrypt aead c seq ct ad).0 ps

  abbrev numbers : List (ℕ × Bytes × Option Bytes) → List ℕ
  numbers = map (λ x. x.0)

  receive_all-run :
      (c : ShinCipher) (ps : List (ℕ × Bytes × Option Bytes))
      → (receive_all c ps).rx_replay ≡ run c.rx_replay (numbers ps)
  unfolding receive_all run
  receive_all-run c [] = refl
  receive_all-run c ((seq, ct, ad) ∷ ps) =
      receive_all-run (decrypt aead c seq ct ad).0 ps
      ∙ ap (λ (w : AntiReplayWindow). run w (numbers ps)) (decrypt-filter c seq ct ad).0

  -- A sequence number that has delivered a packet delivers no other: whatever arrives in between,
  -- a packet with that number is refused by the filter, its content notwithstanding.
  pub delivered_once :
      (c : ShinCipher) (seq : ℕ) (ct ct' p : Bytes) (ad ad' : Option Bytes)
      (between : List (ℕ × Bytes × Option Bytes))
      → 0 < c.rx_replay.window_size
      → (decrypt aead c seq ct ad).1 ≡ ok p
      → (decrypt aead (receive_all (decrypt aead c seq ct ad).0 between) seq ct' ad').1
        ≡ err value_error
  delivered_once c seq ct ct' p ad ad' between q h =
      let later = receive_all (decrypt aead c seq ct ad).0 between in
      let window : later.rx_replay ≡ run (check_and_update c.rx_replay seq).0 (numbers between) =
        receive_all-run (decrypt aead c seq ct ad).0 between
        ∙ ap (λ (w : AntiReplayWindow). run w (numbers between)) (decrypt-filter c seq ct ad).0 in
      decrypt-refused later seq ct' ad' (
        rw window
          (accepted_once c.rx_replay seq (numbers between) q (decrypt-accepted c seq ct ad p h)))

  max_seq-ahead :
      (w : AntiReplayWindow) (seq : ℕ) → w.max_seq < seq → (check_and_update w seq).0.max_seq ≡ seq
  unfolding check_and_update
  max_seq-ahead w seq p = ground arith

  ahead_moves :
      (w : AntiReplayWindow) (seq s : ℕ)
      → w.max_seq < seq
      → s + w.window_size ≤ seq
      → (check_and_update (check_and_update w seq).0 s).1 ≡ false
  unfolding spent
  ahead_moves w seq s p q =
      let w' = (check_and_update w seq).0 in
      ground (
        arith,
        check_and_update-answer w' s,
        max_seq-ahead w seq p,
        window_size-check_and_update w seq,
      )

  -- The filter is updated before the tag is checked: one packet with a number ahead of the
  -- maximum, though it fails to authenticate, makes the receiver refuse every packet whose number
  -- is a window size or more behind the forged one.
  pub forged_packet_locks_out :
      (c : ShinCipher) (seq s : ℕ) (forged ct : Bytes) (ad ad' : Option Bytes)
      → c.rx_replay.max_seq < seq
      → s + c.rx_replay.window_size ≤ seq
      → (decrypt aead c seq forged ad).1 ≡ err invalid_tag
      → (decrypt aead (decrypt aead c seq forged ad).0 s ct ad').1 ≡ err value_error
  forged_packet_locks_out c seq s forged ct ad ad' p q bad =
      decrypt-refused (decrypt aead c seq forged ad).0 s ct ad'
        (rw ((decrypt-filter c seq forged ad).0) (ahead_moves c.rx_replay seq s p q))
