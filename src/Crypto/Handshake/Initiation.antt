-- ===== src/Crypto/Handshake/Initiation.antt =====
-- The first message: what the server accepts, and whom it lets in.
use shin_vpn.Prelude.{
  ℕ, ◌+◌, ◌<◌, ◌^◌, Bytes, List, ◌++◌, true, false, Option, none, some, ok, length, take, slice,
  bytes_eq, ◌≡◌, refl, ap, ◌∙◌, sym, arith, ltb,
}
use shin_vpn.Prelude.Struct.{le, value_le, pack_le-ok}
use shin_vpn.Prelude.{length-take_of_le, bytes_eq_refl}
use shin_vpn.Prelude.Struct.{length-le, value_le-le}
use shin_vpn.Crypto.Handshake.Slices.{Fields-append}
use shin_vpn.Crypto.Primitives.{Primitives}
use shin_vpn.Crypto.Handshake.{
  HandshakeState, new_handshake, initiator, responder, create_initiation, process_initiation,
  authorized, load_public_key, protocol_salt, info_auth,
}

module _ (P : Primitives) where
  open P use {public_key, exchange, hkdf, hmac}

  abbrev pub auth_key : Bytes → Bytes → Bytes
  auth_key dh1 dh2 = hkdf protocol_salt info_auth (dh1 ++ dh2)

  abbrev pub body : Bytes → Bytes → Bytes → Bytes → Bytes
  body sk ek random_id nonce =
      le 4 (value_le random_id) ++ (public_key ek ++ (public_key sk ++ nonce))

  create_initiation-ok :
      (sk ek random_id nonce peer dh1 dh2 : Bytes)
      → value_le random_id < 2 ^ 32
      → exchange ek peer ≡ ok dh1
      → exchange sk peer ≡ ok dh2
      → (create_initiation P random_id nonce (new_handshake initiator sk (some peer) ek)) ≡ (
        record (new_handshake initiator sk (some peer) ek) { session_id = value_le random_id },
        ok (
          body sk ek random_id nonce
              ++ take 16 (hmac (auth_key dh1 dh2) (body sk ek random_id nonce)),
          value_le random_id,
        ),
      )
  unfolding create_initiation new_handshake
  create_initiation-ok sk ek random_id nonce peer dh1 dh2 i h1 h2 =
      rw (h1, h2, pack_le-ok 4 (value_le random_id) i) refl

  process_initiation-ok :
      (s : HandshakeState) (message e k dh1 dh2 : Bytes) (allowed : Option (List Bytes))
      → s.role ≡ responder
      → ltb (length message) 116 ≡ false
      → slice 4 36 message ≡ e
      → slice 36 68 message ≡ k
      → length e ≡ 32
      → length k ≡ 32
      → authorized k allowed ≡ true
      → exchange s.static_key e ≡ ok dh1
      → exchange s.static_key k ≡ ok dh2
      → bytes_eq (slice 100 116 message) (take 16 (hmac (auth_key dh1 dh2) (take 100 message)))
        ≡ true
      → process_initiation P message allowed s ≡ (
        record s {
          session_id = value_le (take 4 message);
          peer_static_pub = some k;
          peer_ephemeral_pub = some e;
        },
        ok (k, e),
      )
  unfolding process_initiation load_public_key
  process_initiation-ok s message e k dh1 dh2 allowed r l se sk le_ lk a h1 h2 m =
      rw (r, l, se, sk, a, le_, lk, h1, h2, m) refl

  -- What a client with the private keys `sk` and `ek` sends to the server with the public key `peer`.
  abbrev pub initiation : Bytes → Bytes → Bytes → Bytes → Bytes → Bytes → Bytes
  initiation sk ek random_id nonce dh1 dh2 =
      body sk ek random_id nonce ++ take 16 (hmac (auth_key dh1 dh2) (body sk ek random_id nonce))

  -- A fresh client that knows the server's static key, and whose own static key the server
  -- authorizes, produces a message that the fresh server accepts: the server learns the client's
  -- two public keys and both hold the same session id.
  pub process_initiation-create_initiation :
      (sk ek server_sk server_ek random_id nonce dh1 dh2 : Bytes) (allowed : Option (List Bytes))
      → value_le random_id < 2 ^ 32
      → length nonce ≡ 32
      → exchange ek (public_key server_sk) ≡ ok dh1
      → exchange sk (public_key server_sk) ≡ ok dh2
      → authorized (public_key sk) allowed ≡ true
      → (create_initiation P random_id nonce
            (new_handshake initiator sk (some (public_key server_sk)) ek)
          ≡ (
            record (new_handshake initiator sk (some (public_key server_sk)) ek) {
              session_id = value_le random_id;
            },
            ok (initiation sk ek random_id nonce dh1 dh2, value_le random_id),
          ))
        × (process_initiation P
              (initiation sk ek random_id nonce dh1 dh2)
              allowed
              (new_handshake responder server_sk none server_ek)
            ≡ (
              record (new_handshake responder server_sk none server_ek) {
                session_id = value_le random_id;
                peer_static_pub = some (public_key sk);
                peer_ephemeral_pub = some (public_key ek);
              },
              ok (public_key sk, public_key ek),
            ))
  process_initiation-create_initiation sk ek server_sk server_ek random_id nonce dh1 dh2 allowed i n
        h1 h2 a =
      let id = le 4 (value_le random_id) in
      let message = initiation sk ek random_id nonce dh1 dh2 in
      let tag = take 16 (hmac (auth_key dh1 dh2) (body sk ek random_id nonce)) in
      let tag_length : length tag ≡ 16 =
        length-take_of_le 16 _
          (omega (arith, P.length-hmac (auth_key dh1 dh2) (body sk ek random_id nonce))) in
      let le_ = P.length-public_key ek in
      let lk = P.length-public_key sk in
      let f =
        Fields-append id (public_key ek) (public_key sk) nonce tag 4 36 68 100
          (length-le 4 (value_le random_id)) (omega (arith, le_)) (omega (arith, lk))
          (omega (arith, n)) in
      let same_tag : slice 100 116 message ≡ tag =
        ap (λ (x : ℕ). slice 100 (100 + x) message) (sym tag_length) ∙ f.tag in
      let matches : bytes_eq (slice 100 116 message)
            (take 16 (hmac (auth_key dh1 dh2) (take 100 message)))
          ≡ true =
        rw (same_tag, f.before_tag) (bytes_eq_refl tag) in
      let long : ltb (length message) 116 ≡ false =
        ap (λ (x : ℕ). ltb x 116) (f.total ∙ ap (λ (x : ℕ). 100 + x) tag_length) in
      let id_read : value_le (take 4 message) ≡ value_le random_id =
        ap value_le f.first ∙ value_le-le 4 (value_le random_id) i in
      (
        create_initiation-ok sk ek random_id nonce (public_key server_sk) dh1 dh2 i h1 h2,
        process_initiation-ok (new_handshake responder server_sk none server_ek) message
              (public_key ek) (public_key sk) dh1 dh2 allowed (unfold new_handshake in refl) long
              f.second f.third le_ lk a
              (unfold new_handshake in P.exchange_agrees server_sk ek ∙ h1)
              (unfold new_handshake in P.exchange_agrees server_sk sk ∙ h2) matches
            ∙ ap
                (λ (x : ℕ). (
                  record (new_handshake responder server_sk none server_ek) {
                    session_id = x;
                    peer_static_pub = some (public_key sk);
                    peer_ephemeral_pub = some (public_key ek);
                  },
                  ok (public_key sk, public_key ek),
                ))
                id_read,
      )
