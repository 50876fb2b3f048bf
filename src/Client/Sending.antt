-- ===== src/Client/Sending.antt =====
-- When the client's calls for a proxied connection return.
use shin_vpn.Prelude.{
  ℕ, suc, ◌+◌, ◌<◌, ◌≤◌, ◌^◌, Bytes, List, [], ◌∷◌, ◌++◌, All, true, none, some, ok, ◌≡◌, refl,
  arith, length, length-append,
}
use shin_vpn.Prelude.Struct.{be, le, pack_be-ok, length-be}
use shin_vpn.Protocol.Constants.{msg_proxy_data}
use shin_vpn.Protocol.Header.{layout, pack-layout}
use shin_vpn.Protocol.Frames.{shin_frame, new, with_type, to_bytes, header}
use shin_vpn.Crypto.Aead.{Aead}
use shin_vpn.Crypto.Cipher.{ShinCipher, encrypt, build_nonce}
use shin_vpn.Crypto.Cipher.Channel.{build_nonce-ok, encrypt-ok}
use shin_vpn.Crypto.Cipher.Nonces.{encrypt-keeps}
use shin_vpn.Client.{ShinVpnClient, connected, send_raw}
use shin_vpn.Client.Packets.{send_sealed, async_send_proxy, send_proxy_frame_from_local}
use shin_vpn.Client.Relaying.{send_all}

-- A connected client that has numbers left for `n` packets.
pub record CanSend (n : ℕ) (tx : ShinCipher) (c : ShinVpnClient) : Type 0 where
  pub state : c.state ≡ connected
  pub cipher : c.tx_cipher ≡ some tx
  pub transport : c.has_transport ≡ true
  pub session : c.session_id < 2 ^ 32
  pub nonce_session : tx.session_id < 2 ^ 32
  pub numbers : tx.tx_seq + n < 2 ^ 64

module _ (aead : Aead) (conn_id : ℕ) where
  -- What the local proxy's callback does with the pieces of one connection.
  unfoldable pub hand_over : List Bytes → ShinVpnClient → ShinVpnClient
  hand_over [] c = c
  hand_over (d ∷ ds) c = hand_over ds (send_proxy_frame_from_local aead conn_id 2 [] 0 d c)

module _ (aead : Aead) (conn_id : ℕ) (fits : conn_id < 2 ^ 32) where
  to_bytes-ok :
      (session_id seq : ℕ) (ct : Bytes)
      → session_id < 2 ^ 32
      → seq < 2 ^ 64
      → length ct < 2 ^ 16
      → (raw : Bytes) × (to_bytes (with_type msg_proxy_data (new shin_frame session_id seq ct))
          ≡ ok raw)
  unfolding to_bytes
  to_bytes-ok session_id seq ct s q l =
      let f = with_type msg_proxy_data (new shin_frame session_id seq ct) in
      (
        layout (header f) ++ ct,
        rw
            (pack-layout (header f) (record {
              version = omega arith;
              msg_type = omega arith;
              session_id = s;
              seq_num = q;
              payload_len = l;
            }))
            refl,
      )

  -- What a call does when it returns.
  record Call (d : Bytes) (tx : ShinCipher) (c : ShinVpnClient) : Type 0 where
    raw : Bytes
    returns : async_send_proxy aead conn_id 2 [] 0 d c ≡ (
      send_raw raw (record c { tx_cipher = some (encrypt aead tx (be 4 conn_id ++ d) none).0 }),
      ok tt,
    )

  async_send_proxy-ok :
      (d : Bytes) (n : ℕ) (tx : ShinCipher) (c : ShinVpnClient)
      → CanSend (suc n) tx c
      → length d ≤ 2048
      → Call d tx c
  unfolding async_send_proxy send_sealed
  async_send_proxy-ok d n tx c h small =
      let payload = be 4 conn_id ++ d in
      let seq = tx.tx_seq + 1 in
      let nonce = le 4 tx.session_id ++ le 8 seq in
      let numbers = h.numbers in
      let made : build_nonce tx.session_id seq ≡ ok nonce =
        build_nonce-ok tx.session_id seq h.nonce_session (omega arith) in
      let ct = aead.seal tx.key nonce payload none in
      let sealed : (encrypt aead tx payload none).1 ≡ ok (seq, ct) =
        encrypt-ok aead tx payload nonce none made in
      let (raw, framed) = to_bytes-ok c.session_id seq ct h.session (omega arith) (
        omega (
          arith,
          aead.length-seal tx.key nonce payload none,
          length-append (be 4 conn_id) d,
          length-be 4 conn_id,
        )) in
      record {
        raw = raw;
        returns = rw (pack_be-ok 4 conn_id fits, h.cipher, send_sealed, sealed, framed) refl;
      }

  CanSend-after :
      (raw p : Bytes) (n : ℕ) (tx : ShinCipher) (c : ShinVpnClient)
      → CanSend (suc n) tx c
      → CanSend n
          (encrypt aead tx p none).0
          (send_raw raw (record c { tx_cipher = some (encrypt aead tx p none).0 }))
  unfolding send_raw
  CanSend-after raw p n tx c h =
      let (next, session, key) = encrypt-keeps aead tx p none in
      let nonce_session = h.nonce_session in
      let numbers = h.numbers in
      record {
        state = h.state;
        cipher = refl;
        transport = h.transport;
        session = h.session;
        nonce_session = rw session nonce_session;
        numbers = rw next (omega arith);
      }

  send_proxy_frame_from_local-sends :
      (d : Bytes) (n : ℕ) (tx : ShinCipher) (c : ShinVpnClient)
      → CanSend n tx c
      → send_proxy_frame_from_local aead conn_id 2 [] 0 d c
        ≡ (async_send_proxy aead conn_id 2 [] 0 d c).0
  unfolding send_proxy_frame_from_local
  send_proxy_frame_from_local-sends d n tx c h = rw (h.cipher, h.state) refl

  -- The callback is not refused, and none of its calls raises.
  pub send_all-hand_over :
      (ds : List Bytes) (tx : ShinCipher) (c : ShinVpnClient)
      → All (λ d. length d ≤ 2048) ds
      → CanSend (length ds) tx c
      → send_all aead conn_id ds c ≡ (hand_over aead conn_id ds c, ok tt)
  unfolding send_all hand_over
  send_all-hand_over [] tx c small h = refl
  send_all-hand_over (d ∷ ds) tx c small h =
      let call = async_send_proxy-ok d (length ds) tx c h small.0 in
      rw (send_proxy_frame_from_local-sends d _ tx c h, call.returns)
        (send_all-hand_over ds _ _ small.1
          (CanSend-after call.raw (be 4 conn_id ++ d) (length ds) tx c h))
