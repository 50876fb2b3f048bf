-- ===== src/Client/Proxying.antt =====
-- Data of a local application, from the client's proxy to the stream at the server.
use mathlib.Core.List.{append-nil}
use shin_vpn.Prelude.{
  ℕ, ◌+◌, ◌<◌, ◌^◌, Bytes, [], ◌∷◌, ◌++◌, false, none, some, Result, ok, err, ◌≡◌, refl, sym, ap,
  ◌∙◌, inr, arith, length, take, drop, take-append, drop-append, is_empty,
}
use shin_vpn.Prelude.Struct.{be, pack_be, pack_be_inv, unpack_be, unpack_be-be, length-be}
use shin_vpn.Prelude.Utf8.{Text}
use shin_vpn.Protocol.Constants.{msg_proxy_data}
use shin_vpn.Protocol.Frames.{shin_frame, proxy_data, ShinFrame, new, with_type, to_bytes}
use shin_vpn.Protocol.Parse.{parse_frame}
use shin_vpn.Protocol.Parse.Roundtrip.{parse_frame-to_bytes}
use shin_vpn.Crypto.Replay.Window.{spent}
use shin_vpn.Crypto.Aead.{Aead}
use shin_vpn.Crypto.Cipher.{ShinCipher, encrypt}
use shin_vpn.Crypto.Cipher.Channel.{SharesKey, encrypt_inv, decrypt-encrypt}
use shin_vpn.Client.{ShinVpnClient, send_raw}
use shin_vpn.Client.Packets.{send_sealed, async_send_proxy}
use shin_vpn.Server.Session
use shin_vpn.Server.Session.{ClientSession, Serving, with_session, deliver, handle_proxy_frame}

nonempty : (xs : Bytes) → 0 < length xs → is_empty xs ≡ false
nonempty [] h = absurd (omega arith)
nonempty (x ∷ xs) h = refl

module _ (aead : Aead) where
  -- What `send_sealed` did when it returned.
  record Sent (msg_type : ℕ) (payload : Bytes) (tx : ShinCipher) (c c' : ShinVpnClient)
      : Type 0 where
    seq : ℕ
    ct : Bytes
    raw : Bytes
    sealed : (encrypt aead tx payload none).1 ≡ ok (seq, ct)
    framed : to_bytes (with_type msg_type (new shin_frame c.session_id seq ct)) ≡ ok raw
    after : c' ≡ send_raw raw (record c { tx_cipher = some (encrypt aead tx payload none).0 })

  send_sealed-Sent :
      (msg_type : ℕ) (payload : Bytes) (tx : ShinCipher) (c c' : ShinVpnClient)
      → c.tx_cipher ≡ some tx
      → send_sealed aead msg_type payload c ≡ (c', ok tt)
      → Sent msg_type payload tx c c'
  unfolding send_sealed
  send_sealed-Sent msg_type payload tx c c' t e =
      by_seal (encrypt aead tx payload none).1 refl (rw (t, send_sealed) at e)
    where
      c1 : ShinVpnClient
      c1 = record c { tx_cipher = some (encrypt aead tx payload none).0 }

      by_raw :
          (seq : ℕ) (ct : Bytes) (r : Result Bytes)
          → (encrypt aead tx payload none).1 ≡ ok (seq, ct)
          → to_bytes (with_type msg_type (new shin_frame c.session_id seq ct)) ≡ r
          → (elim r as (λ _. ShinVpnClient × Result (Unit {0})) [
            | err x ↦ (c1, err x)
            | ok raw ↦ (send_raw raw c1, ok tt)
          ])
            ≡ (c', ok tt)
          → Sent msg_type payload tx c c'
      by_raw seq ct (err x) s f q = absurd (cc)
      by_raw seq ct (ok raw) s f q = record {
        seq = seq;
        ct = ct;
        raw = raw;
        sealed = s;
        framed = f;
        after = sym (ap (λ x. x.0) q);
      }

      by_seal :
          (r : Result (ℕ × Bytes))
          → (encrypt aead tx payload none).1 ≡ r
          → (elim r as (λ _. ShinVpnClient × Result (Unit {0})) [
            | err x ↦ (c1, err x)
            | ok (seq, ciphertext) ↦
                elim (to_bytes (with_type msg_type (new shin_frame c.session_id seq ciphertext))) [
                  | err x ↦ (c1, err x)
                  | ok raw ↦ (send_raw raw c1, ok tt)
                ]
          ])
            ≡ (c', ok tt)
          → Sent msg_type payload tx c c'
      by_seal (err x) s q = absurd (cc)
      by_seal (ok (seq, ct)) s q =
          by_raw seq ct (to_bytes (with_type msg_type (new shin_frame c.session_id seq ct))) s refl
            q

  async_send_proxy-data :
      (conn_id port : ℕ) (host : Text) (data_ : Bytes) (c c' : ShinVpnClient)
      → async_send_proxy aead conn_id 2 host port data_ c ≡ (c', ok tt)
      → (conn_id < 2 ^ 32)
        × (send_sealed aead msg_proxy_data (be 4 conn_id ++ data_) c ≡ (c', ok tt))
  unfolding async_send_proxy
  async_send_proxy-data conn_id port host data_ c c' e = by_pack (pack_be 4 conn_id) refl
    where
      by_pack :
          (r : Result Bytes)
          → pack_be 4 conn_id ≡ r
          → (conn_id < 2 ^ 32)
            × (send_sealed aead msg_proxy_data (be 4 conn_id ++ data_) c ≡ (c', ok tt))
      by_pack (ok id) p =
          let (fits, is) = pack_be_inv 4 conn_id p in
          (
            fits,
            ap (λ (x : Bytes). send_sealed aead msg_proxy_data (x ++ data_) c) (sym is)
                ∙ (rw p at e),
          )
      by_pack (err x) p = let failed = rw p at e in absurd (cc)

  handle_proxy_frame-data :
      (f : ShinFrame) (v : Serving) (conn_id : ℕ) (data_ : Bytes)
      → conn_id < 2 ^ 32
      → f.msg_type ≡ msg_proxy_data
      → (Session.open_frame aead f v).1 ≡ ok (be 4 conn_id ++ data_)
      → handle_proxy_frame aead f v
        ≡ (with_session (deliver aead conn_id data_) (Session.open_frame aead f v).0, ok tt)
  unfolding handle_proxy_frame Session.proxy_data
  handle_proxy_frame-data f v conn_id data_ l t o =
      let id : unpack_be 4 (take 4 (be 4 conn_id ++ data_)) ≡ ok conn_id =
        ap (unpack_be 4) (take-append 4 (be 4 conn_id) data_ (length-be 4 conn_id))
        ∙ unpack_be-be 4 conn_id l in
      let rest : drop 4 (be 4 conn_id ++ data_) ≡ data_ =
        drop-append 4 (be 4 conn_id) data_ (length-be 4 conn_id) in
      rw (o, t, id, rest) refl

  -- The frame of one chunk: what the client sends, and what comes of it at the server.
  pub record Relayed (now conn_id : ℕ) (data_ : Bytes) (tx : ShinCipher) (c c' : ShinVpnClient)
      (v : Serving) : Type 0 where
    pub raw : Bytes
    pub frame : ShinFrame
    pub number : frame.seq_num ≡ tx.tx_seq + 1
    pub after :
        c'
        ≡ send_raw raw
            (record c { tx_cipher = some (encrypt aead tx (be 4 conn_id ++ data_) none).0 })
    pub parsed : parse_frame now raw ≡ ok frame
    pub handled :
        handle_proxy_frame aead frame v
        ≡ (with_session (deliver aead conn_id data_) (Session.open_frame aead frame v).0, ok tt)

  pub async_send_proxy-Relayed :
      (now conn_id port : ℕ) (host : Text) (data_ : Bytes) (tx : ShinCipher) (c c' : ShinVpnClient)
      (v : Serving)
      → c.tx_cipher ≡ some tx
      → async_send_proxy aead conn_id 2 host port data_ c ≡ (c', ok tt)
      → SharesKey tx v.session.rx_cipher
      → spent v.session.rx_cipher.rx_replay (tx.tx_seq + 1) ≡ false
      → Relayed now conn_id data_ tx c c' v
  unfolding Session.open_frame
  async_send_proxy-Relayed now conn_id port host data_ tx c c' v t e k fresh =
      let (fits, sealing) = async_send_proxy-data conn_id port host data_ c c' e in
      let payload = be 4 conn_id ++ data_ in
      let s = send_sealed-Sent msg_proxy_data payload tx c c' t sealing in
      let (n, nonce, number, is) = encrypt_inv aead tx payload s.ct none s.seq s.sealed in
      let some_bytes : is_empty s.ct ≡ false =
        nonempty s.ct (rw is (omega (arith, aead.length-seal tx.key n payload none))) in
      let f = new proxy_data c.session_id s.seq s.ct in
      let parsed : parse_frame now s.raw ≡ ok f =
        ap (λ (x : Bytes). parse_frame now x) (sym (append-nil s.raw))
        ∙ parse_frame-to_bytes now f s.raw []
            (record { type_of_class = refl; not_filled = inr some_bytes })
            (unfold to_bytes in s.framed) in
      let opened : (Session.open_frame aead f v).1 ≡ ok payload =
        decrypt-encrypt aead tx v.session.rx_cipher payload s.ct none s.seq k s.sealed
          (rw number fresh) in
      record {
        raw = s.raw;
        frame = f;
        number = number;
        after = s.after;
        parsed = parsed;
        handled = handle_proxy_frame-data f v conn_id data_ fits refl opened;
      }

  -- Data that the local proxy hands to the client reaches the stream at the server: the client
  -- sends one frame, which parses, and which the server, where it has the client's key and session
  -- and has not spent the number, opens to deliver just that data to just that connection.
  pub handle_proxy_frame-async_send_proxy :
      (now conn_id port : ℕ) (host : Text) (data_ : Bytes) (tx : ShinCipher) (c c' : ShinVpnClient)
      (v : Serving)
      → c.tx_cipher ≡ some tx
      → async_send_proxy aead conn_id 2 host port data_ c ≡ (c', ok tt)
      → SharesKey tx v.session.rx_cipher
      → spent v.session.rx_cipher.rx_replay (tx.tx_seq + 1) ≡ false
      → (raw : Bytes) × (f : ShinFrame) × (c'
          ≡ send_raw raw
              (record c { tx_cipher = some (encrypt aead tx (be 4 conn_id ++ data_) none).0 }))
        × (parse_frame now raw ≡ ok f)
        × (handle_proxy_frame aead f v
            ≡ (with_session (deliver aead conn_id data_) (Session.open_frame aead f v).0, ok tt))
  handle_proxy_frame-async_send_proxy now conn_id port host data_ tx c c' v t e k fresh =
      let r = async_send_proxy-Relayed now conn_id port host data_ tx c c' v t e k fresh in
      (r.raw, r.frame, r.after, r.parsed, r.handled)
