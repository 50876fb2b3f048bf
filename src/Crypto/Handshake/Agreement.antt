-- ===== src/Crypto/Handshake/Agreement.antt =====
-- The second message: both ends finish with the same address and with the same two keys.
use shin_vpn.Prelude.{
  ℕ, ◌+◌, ◌<◌, ◌^◌, Bytes, [], ◌∷◌, ◌++◌, Bool, true, false, none, some, ok, length, take, slice,
  bytes_eq, ◌≡◌, refl, ap, ◌∙◌, sym, arith, ltb, length-take_of_le, bytes_eq_refl, ==_refl,
}
use shin_vpn.Prelude.Struct.{le, value_le, pack_le-ok, length-le, value_le-le}
use shin_vpn.Prelude.Utf8.{Text}
use shin_vpn.Prelude.Decimal.{split, dotted, split-dotted, int_of-show_octet}
use shin_vpn.Crypto.Replay.{init}
use shin_vpn.Crypto.Cipher.{ShinCipher, new_cipher}
use shin_vpn.Crypto.Primitives.{Primitives}
use shin_vpn.Crypto.Handshake.Slices.{Fields-append}
use shin_vpn.Crypto.Handshake.{
  HandshakeState, new_handshake, initiator, responder, create_response, process_response, octets,
  dotted_of, load_public_key, protocol_salt, info_key_tx, info_key_rx, info_resp_auth, master,
}

-- The address of four octets is sent as the four octets.
octets-dotted :
    (w x y z : ℕ)
    → w < 256
    → x < 256
    → y < 256
    → z < 256
    → octets (split b'.' (dotted w x y z)) ≡ ok (w ∷ x ∷ y ∷ z ∷ [])
unfolding octets
octets-dotted w x y z hw hx hy hz =
    rw
      (
        split-dotted w x y z hw hx hy hz,
        int_of-show_octet w hw,
        int_of-show_octet x hx,
        int_of-show_octet y hy,
        int_of-show_octet z hz,
      )
      (ground arith)

-- The object that `ShinCipher(key, session_id, is_initiator)` returns.
abbrev pub fresh_cipher : Bytes → ℕ → Bool → ShinCipher
fresh_cipher key session_id is_initiator = record {
  key = key;
  session_id = session_id;
  is_initiator = is_initiator;
  tx_seq = 0;
  rx_replay = init 128;
  bytes_encrypted = 0;
  bytes_decrypted = 0;
}

new_cipher-ok :
    (key : Bytes) (id : ℕ) (b : Bool)
    → length key ≡ 32
    → new_cipher key id b ≡ ok (fresh_cipher key id b)
unfolding new_cipher
new_cipher-ok key id b h = rw h refl

module _ (P : Primitives) where
  open P use {public_key, exchange, hkdf, hmac}

  -- Both ends after the first message.

  abbrev pub waiting : Bytes → Bytes → Bytes → ℕ → HandshakeState
  waiting sk ek server_sk id =
      record (new_handshake initiator sk (some (public_key server_sk)) ek) { session_id = id }

  abbrev pub introduced : Bytes → Bytes → Bytes → Bytes → ℕ → HandshakeState
  introduced sk ek server_sk server_ek id =
      record (new_handshake responder server_sk none server_ek) {
        session_id = id;
        peer_static_pub = some (public_key sk);
        peer_ephemeral_pub = some (public_key ek);
      }

  abbrev pub key_tx : Bytes → Bytes
  key_tx secret = hkdf protocol_salt info_key_tx secret

  abbrev pub key_rx : Bytes → Bytes
  key_rx secret = hkdf protocol_salt info_key_rx secret

  abbrev pub response_body : Bytes → ℕ → Bytes → Bytes → Bytes
  response_body server_ek id vip_bytes nonce =
      le 4 id ++ (public_key server_ek ++ (vip_bytes ++ nonce))

  abbrev pub response : Bytes → ℕ → Bytes → Bytes → Bytes → Bytes
  response server_ek id vip_bytes nonce secret =
      response_body server_ek id vip_bytes nonce
      ++ take 16 (
          hmac (hkdf protocol_salt info_resp_auth secret)
            (response_body server_ek id vip_bytes nonce))

  create_response-ok :
      (sk ek server_sk server_ek nonce vip_bytes dh1 dh2 dh3 : Bytes) (vip : Text) (id : ℕ)
      → id < 2 ^ 32
      → exchange server_sk (public_key ek) ≡ ok dh1
      → exchange server_sk (public_key sk) ≡ ok dh2
      → exchange server_ek (public_key ek) ≡ ok dh3
      → octets (split b'.' vip) ≡ ok vip_bytes
      → create_response P vip nonce (introduced sk ek server_sk server_ek id) ≡ (
        record (introduced sk ek server_sk server_ek id) {
          allocated_vip = some vip;
          tx_cipher = some (fresh_cipher (key_tx (master P dh1 dh2 dh3)) id false);
          rx_cipher = some (fresh_cipher (key_rx (master P dh1 dh2 dh3)) id false);
          is_completed = true;
        },
        ok (response server_ek id vip_bytes nonce (master P dh1 dh2 dh3)),
      )
  unfolding create_response new_handshake
  create_response-ok sk ek server_sk server_ek nonce vip_bytes dh1 dh2 dh3 vip id i h1 h2 h3 o =
      let secret = master P dh1 dh2 dh3 in
      rw
        (
          h1,
          h2,
          h3,
          new_cipher-ok (key_tx secret) id false (P.length-hkdf protocol_salt info_key_tx secret),
          new_cipher-ok (key_rx secret) id false (P.length-hkdf protocol_salt info_key_rx secret),
          o,
          pack_le-ok 4 id i,
        )
        refl

  process_response-ok :
      (sk ek server_sk message e dh1 dh2 dh3 : Bytes) (id : ℕ)
      → ltb (length message) 88 ≡ false
      → value_le (take 4 message) ≡ id
      → slice 4 36 message ≡ e
      → length e ≡ 32
      → exchange ek (public_key server_sk) ≡ ok dh1
      → exchange sk (public_key server_sk) ≡ ok dh2
      → exchange ek e ≡ ok dh3
      → bytes_eq (slice 72 88 message) (
          take 16
            (hmac (hkdf protocol_salt info_resp_auth (master P dh1 dh2 dh3)) (take 72 message)))
        ≡ true
      → process_response P message (waiting sk ek server_sk id) ≡ (
        record (waiting sk ek server_sk id) {
          peer_ephemeral_pub = some e;
          allocated_vip = some (dotted_of (slice 36 40 message));
          tx_cipher = some (fresh_cipher (key_rx (master P dh1 dh2 dh3)) id true);
          rx_cipher = some (fresh_cipher (key_tx (master P dh1 dh2 dh3)) id true);
          is_completed = true;
        },
        ok (dotted_of (slice 36 40 message)),
      )
  unfolding process_response new_handshake load_public_key
  process_response-ok sk ek server_sk message e dh1 dh2 dh3 id l i se le_ h1 h2 h3 m =
      let secret = master P dh1 dh2 dh3 in
      rw
        (
          l,
          i,
          ==_refl id,
          se,
          le_,
          h1,
          h2,
          h3,
          m,
          new_cipher-ok (key_tx secret) id true (P.length-hkdf protocol_salt info_key_tx secret),
          new_cipher-ok (key_rx secret) id true (P.length-hkdf protocol_salt info_key_rx secret),
        )
        refl

  -- A server that has accepted the first message answers with a message that the client accepts:
  -- the client reads the address that the server gave, and each end's sending key is the other
  -- end's receiving key, for the same session id.
  pub process_response-create_response :
      (sk ek server_sk server_ek nonce dh1 dh2 dh3 : Bytes) (w x y z id : ℕ)
      → w < 256
      → x < 256
      → y < 256
      → z < 256
      → id < 2 ^ 32
      → length nonce ≡ 32
      → exchange ek (public_key server_sk) ≡ ok dh1
      → exchange sk (public_key server_sk) ≡ ok dh2
      → exchange ek (public_key server_ek) ≡ ok dh3
      → (create_response P (dotted w x y z) nonce (introduced sk ek server_sk server_ek id) ≡ (
        record (introduced sk ek server_sk server_ek id) {
          allocated_vip = some (dotted w x y z);
          tx_cipher = some (fresh_cipher (key_tx (master P dh1 dh2 dh3)) id false);
          rx_cipher = some (fresh_cipher (key_rx (master P dh1 dh2 dh3)) id false);
          is_completed = true;
        },
        ok (response server_ek id (w ∷ x ∷ y ∷ z ∷ []) nonce (master P dh1 dh2 dh3)),
      ))
        × (process_response P
              (response server_ek id (w ∷ x ∷ y ∷ z ∷ []) nonce (master P dh1 dh2 dh3))
              (waiting sk ek server_sk id)
            ≡ (
              record (waiting sk ek server_sk id) {
                peer_ephemeral_pub = some (public_key server_ek);
                allocated_vip = some (dotted w x y z);
                tx_cipher = some (fresh_cipher (key_rx (master P dh1 dh2 dh3)) id true);
                rx_cipher = some (fresh_cipher (key_tx (master P dh1 dh2 dh3)) id true);
                is_completed = true;
              },
              ok (dotted w x y z),
            ))
  process_response-create_response sk ek server_sk server_ek nonce dh1 dh2 dh3 w x y z id hw hx hy
        hz i n h1 h2 h3 =
      let secret = master P dh1 dh2 dh3 in
      let vip_bytes = w ∷ x ∷ y ∷ z ∷ [] in
      let message = response server_ek id vip_bytes nonce secret in
      let made = response_body server_ek id vip_bytes nonce in
      let auth = hkdf protocol_salt info_resp_auth secret in
      let tag = take 16 (hmac auth made) in
      let tag_length : length tag ≡ 16 =
        length-take_of_le 16 _ (omega (arith, P.length-hmac auth made)) in
      let le_ = P.length-public_key server_ek in
      let f =
        Fields-append (le 4 id) (public_key server_ek) vip_bytes nonce tag 4 36 40 72
          (length-le 4 id) (omega (arith, le_)) refl (omega (arith, n)) in
      let same_tag : slice 72 88 message ≡ tag =
        ap (λ (k : ℕ). slice 72 (72 + k) message) (sym tag_length) ∙ f.tag in
      let matches : bytes_eq (slice 72 88 message) (take 16 (hmac auth (take 72 message))) ≡ true =
        rw (same_tag, f.before_tag) (bytes_eq_refl tag) in
      let long : ltb (length message) 88 ≡ false =
        ap (λ (k : ℕ). ltb k 88) (f.total ∙ ap (λ (k : ℕ). 72 + k) tag_length) in
      let id_read : value_le (take 4 message) ≡ id = ap value_le f.first ∙ value_le-le 4 id i in
      let shown : dotted_of (slice 36 40 message) ≡ dotted w x y z =
        ap dotted_of f.third ∙ (unfold dotted_of in refl) in
      (
        create_response-ok sk ek server_sk server_ek nonce vip_bytes dh1 dh2 dh3 (dotted w x y z) id
            i (P.exchange_agrees server_sk ek ∙ h1) (P.exchange_agrees server_sk sk ∙ h2)
            (P.exchange_agrees server_ek ek ∙ h3) (octets-dotted w x y z hw hx hy hz),
        process_response-ok sk ek server_sk message (public_key server_ek) dh1 dh2 dh3 id long
              id_read f.second le_ h1 h2 h3 matches
            ∙ ap
                (λ (t : Text). (
                  record (waiting sk ek server_sk id) {
                    peer_ephemeral_pub = some (public_key server_ek);
                    allocated_vip = some t;
                    tx_cipher = some (fresh_cipher (key_rx (master P dh1 dh2 dh3)) id true);
                    rx_cipher = some (fresh_cipher (key_tx (master P dh1 dh2 dh3)) id true);
                    is_completed = true;
                  },
                  ok t,
                ))
                shown,
      )
