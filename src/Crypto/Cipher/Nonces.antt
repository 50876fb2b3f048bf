-- ===== src/Crypto/Cipher/Nonces.antt =====
-- No nonce is used twice.
use shin_vpn.Prelude.{
  ℕ, ◌+◌, ◌≤◌, ◌<◌, ◌^◌, Bytes, List, [], ◌∷◌, ◌++◌, Option, ok, drop, ◌≡◌, ◌≢◌, refl, sym, ap, ◌∙◌,
  arith, drop-append,
}
use shin_vpn.Prelude.Struct.{le, value_le, pack_le, length-le, value_le-le}
use shin_vpn.Crypto.Aead.{Aead}
use shin_vpn.Crypto.Cipher.{ShinCipher, build_nonce, encrypt}
use shin_vpn.Crypto.Cipher.Channel.{encrypt_inv}

build_nonce_inv :
    (session_id seq : ℕ) (n : Bytes)
    → build_nonce session_id seq ≡ ok n
    → (session_id < 2 ^ 32) × (seq < 2 ^ 64) × (n ≡ le 4 session_id ++ le 8 seq)
unfolding build_nonce pack_le
build_nonce_inv session_id seq n e = ground arith

-- The sequence number can be read off the nonce, so two numbers have two nonces.
pub build_nonce-injective :
    (session_id a b : ℕ) (n : Bytes)
    → build_nonce session_id a ≡ ok n
    → build_nonce session_id b ≡ ok n
    → a ≡ b
build_nonce-injective session_id a b n p q =
    let (s, fa, is_a) = build_nonce_inv session_id a n p in
    let (s', fb, is_b) = build_nonce_inv session_id b n q in
    let head = le 4 session_id in
    let tail_a : drop 4 n ≡ le 8 a =
      ap (λ (x : Bytes). drop 4 x) is_a ∙ drop-append 4 head (le 8 a) (length-le 4 session_id) in
    let tail_b : drop 4 n ≡ le 8 b =
      ap (λ (x : Bytes). drop 4 x) is_b ∙ drop-append 4 head (le 8 b) (length-le 4 session_id) in
    sym (value_le-le 8 a fa) ∙ ap value_le (sym tail_a ∙ tail_b) ∙ value_le-le 8 b fb

module _ (aead : Aead) where
  pub encrypt-keeps :
      (c : ShinCipher) (p : Bytes) (ad : Option Bytes)
      → ((encrypt aead c p ad).0.tx_seq ≡ c.tx_seq + 1)
        × ((encrypt aead c p ad).0.session_id ≡ c.session_id)
        × ((encrypt aead c p ad).0.key ≡ c.key)
  unfolding encrypt build_nonce pack_le
  encrypt-keeps c p ad = ground arith

  -- The object after a call for each of `ps`.
  unfoldable pub encrypt_all : ShinCipher → List (Bytes × Option Bytes) → ShinCipher
  encrypt_all c [] = c
  encrypt_all c ((p, ad) ∷ ps) = encrypt_all (encrypt aead c p ad).0 ps

  tx_seq-encrypt_all :
      (c : ShinCipher) (ps : List (Bytes × Option Bytes))
      → (c.tx_seq ≤ (encrypt_all c ps).tx_seq)
        × ((encrypt_all c ps).session_id ≡ c.session_id)
        × ((encrypt_all c ps).key ≡ c.key)
  unfolding encrypt_all
  tx_seq-encrypt_all c [] = (omega arith, refl, refl)
  tx_seq-encrypt_all c ((p, ad) ∷ ps) =
      let (grown, kept, key') = tx_seq-encrypt_all (encrypt aead c p ad).0 ps in
      let (next, same, key) = encrypt-keeps c p ad in
      (omega (arith, grown, next), kept ∙ same, key' ∙ key)

  -- "<IQ"
  abbrev pub nonce_of : ShinCipher → ℕ → Bytes
  nonce_of c seq = le 4 c.session_id ++ le 8 seq

  -- What a call that returned has sealed with: the nonce of its number.
  sealed_with :
      (c : ShinCipher) (p ct : Bytes) (ad : Option Bytes) (seq : ℕ)
      → (encrypt aead c p ad).1 ≡ ok (seq, ct)
      → (build_nonce c.session_id seq ≡ ok (nonce_of c seq))
        × (seq ≡ c.tx_seq + 1)
        × (ct ≡ aead.seal c.key (nonce_of c seq) p ad)
  sealed_with c p ct ad seq h =
      let (n, made, number, sealed) = encrypt_inv aead c p ct ad seq h in
      let (fits, fits', is) = build_nonce_inv c.session_id seq n made in
      (made ∙ ap ok is, number, sealed ∙ ap (λ (x : Bytes). aead.seal c.key x p ad) is)

  -- Two ciphertexts that one object has given out, with any calls of `encrypt` between the two,
  -- whether these raise or not: each is sealed under the object's key and the nonce of the session
  -- id and the number that was returned with it, and the two nonces differ.
  pub nonce_never_reused :
      (c : ShinCipher) (p p' ct ct' : Bytes) (ad ad' : Option Bytes) (seq seq' : ℕ)
      (ps : List (Bytes × Option Bytes))
      → (encrypt aead c p ad).1 ≡ ok (seq, ct)
      → (encrypt aead (encrypt_all (encrypt aead c p ad).0 ps) p' ad').1 ≡ ok (seq', ct')
      → (ct ≡ aead.seal c.key (nonce_of c seq) p ad)
        × (ct' ≡ aead.seal c.key (nonce_of c seq') p' ad')
        × (nonce_of c seq ≢ nonce_of c seq')
  nonce_never_reused c p p' ct ct' ad ad' seq seq' ps e e' =
      let (next, same, key) = encrypt-keeps c p ad in
      let (grown, kept, key') = tx_seq-encrypt_all (encrypt aead c p ad).0 ps in
      let later = encrypt_all (encrypt aead c p ad).0 ps in
      let (made, number, sealed) = sealed_with c p ct ad seq e in
      let (made', number', sealed') = sealed_with later p' ct' ad' seq' e' in
      let session : later.session_id ≡ c.session_id = kept ∙ same in
      let made_later : build_nonce c.session_id seq' ≡ ok (nonce_of c seq') =
        ap (λ (x : ℕ). build_nonce x seq') (sym session)
        ∙ (made' ∙ ap (λ (x : ℕ). ok (le 4 x ++ le 8 seq')) session) in
      (
        sealed,
        sealed'
            ∙ (ap (λ (k : Bytes). aead.seal k (nonce_of later seq') p' ad') (key' ∙ key)
                ∙ ap (λ (x : ℕ). aead.seal c.key (le 4 x ++ le 8 seq') p' ad') session),
        λ equal.
            let equal_seq : seq ≡ seq' =
              build_nonce-injective c.session_id seq seq' (nonce_of c seq) made
                (made_later ∙ ap ok (sym equal)) in
            absurd (omega (arith, next, grown, number, number', equal_seq)),
      )
