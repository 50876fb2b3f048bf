-- ===== src/Tests/Toys.antt =====
-- Concrete functions in the place of the cryptography that the code calls.
use shin_vpn.Prelude.{
  ℕ, ◌+◌, ◌-◌, ◌*◌, Bytes, [], ◌∷◌, ◌++◌, Option, Result, ok, err, invalid_tag, length, take, drop,
  replicate, bytes_eq, bytes_eq_refl, length-take_of_le, ◌∙◌, if◌then◌else◌, ◌≡◌, refl, ap, arith,
  length-append, take-append, drop-append,
}
use shin_vpn.Prelude.Struct.{le, length-le}
use native.Mathlib.Nat.{mul_comm}
use shin_vpn.Crypto.Aead.{Aead}
use shin_vpn.Crypto.Primitives.{Primitives}

abbrev tag : Bytes
tag = replicate 16 7

abbrev toy_seal : Bytes → Bytes → Bytes → Option Bytes → Bytes
toy_seal key nonce plaintext ad = plaintext ++ tag

abbrev toy_open : Bytes → Bytes → Bytes → Option Bytes → Result Bytes
toy_open key nonce ciphertext ad =
    let n = length ciphertext - 16 in
    if bytes_eq (drop n ciphertext) tag then ok (take n ciphertext) else err invalid_tag

pub toy_opens :
    (key nonce plaintext : Bytes) (ad : Option Bytes)
    → toy_open key nonce (toy_seal key nonce plaintext ad) ad ≡ ok plaintext
toy_opens key nonce plaintext ad =
    let n : length (plaintext ++ tag) - 16 ≡ length plaintext =
      omega (arith, length-append plaintext tag) in
    rw
      (
        n,
        drop-append (length plaintext) plaintext tag refl,
        take-append (length plaintext) plaintext tag refl,
      )
      refl

-- An AEAD with a constant tag.
abbrev pub toy_aead : Aead
toy_aead = record {
  seal = toy_seal;
  open_ = toy_open;
  open_-seal = toy_opens;
  length-seal = λ key nonce plaintext ad. length-append plaintext tag;
}

-- An AEAD that writes the nonce in the place of the tag, so that it can be read off.
abbrev nonce_tag : Bytes → Bytes
nonce_tag nonce = take 16 (nonce ++ replicate 16 0)

pub length-nonce_tag : (nonce : Bytes) → length (nonce_tag nonce) ≡ 16
length-nonce_tag nonce =
    length-take_of_le 16 (nonce ++ replicate 16 0)
      (omega (arith, length-append nonce (replicate 16 0)))

abbrev telling_seal : Bytes → Bytes → Bytes → Option Bytes → Bytes
telling_seal key nonce plaintext ad = plaintext ++ nonce_tag nonce

abbrev telling_open : Bytes → Bytes → Bytes → Option Bytes → Result Bytes
telling_open key nonce ciphertext ad =
    let n = length ciphertext - 16 in
    if bytes_eq (drop n ciphertext) (nonce_tag nonce)
    then ok (take n ciphertext)
    else err invalid_tag

pub telling_opens :
    (key nonce plaintext : Bytes) (ad : Option Bytes)
    → telling_open key nonce (telling_seal key nonce plaintext ad) ad ≡ ok plaintext
telling_opens key nonce plaintext ad =
    let n : length (plaintext ++ nonce_tag nonce) - 16 ≡ length plaintext =
      omega (arith, length-append plaintext (nonce_tag nonce), length-nonce_tag nonce) in
    rw
      (
        n,
        drop-append (length plaintext) plaintext (nonce_tag nonce) refl,
        take-append (length plaintext) plaintext (nonce_tag nonce) refl,
        bytes_eq_refl (nonce_tag nonce),
      )
      refl

abbrev pub telling_aead : Aead
telling_aead = record {
  seal = telling_seal;
  open_ = telling_open;
  open_-seal = telling_opens;
  length-seal = λ key nonce plaintext ad.
      length-append plaintext (nonce_tag nonce)
      ∙ ap (λ (x : ℕ). length plaintext + x) (length-nonce_tag nonce);
}

abbrev first : Bytes → ℕ
first [] = 0
first (x ∷ xs) = x

abbrev toy_public_key : Bytes → Bytes
toy_public_key a = first a ∷ replicate 31 0

abbrev toy_exchange : Bytes → Bytes → Result Bytes
toy_exchange a p = ok (le 32 (first a * first p))

-- Keys of which the first byte counts, with a product for the exchange.
abbrev pub toy_primitives : Primitives
toy_primitives = record {
  public_key = toy_public_key;
  exchange = toy_exchange;
  hkdf = λ salt info secret. le 32 (first info + first secret);
  hmac = λ key message. le 32 (first key + length message);
  exchange_agrees = λ a b. ap (λ (x : ℕ). ok (le 32 x)) (mul_comm (first a) (first b));
  length-public_key = λ a. refl;
  length-hkdf = λ salt info secret. length-le 32 (first info + first secret);
  length-hmac = λ key message. length-le 32 (first key + length message);
}
