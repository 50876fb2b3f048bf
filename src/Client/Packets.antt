-- ===== src/Client/Packets.antt =====
-- What the client sends through the tunnel, and what it does with the packets that arrive.
use shin_vpn.Prelude.{
  ℕ, zero, suc, ◌+◌, Bytes, [], ◌∷◌, ◌++◌, ◌&&◌, if◌then◌else◌, ◌==◌, none, some, ok, err, length,
  take, drop, replicate,
}
use shin_vpn.Prelude.Errors
use shin_vpn.Prelude.Exec.{Exec, pure, lift, modify, ◌>>=◌, ◌>>◌}
use shin_vpn.Prelude.Struct.{pack_be, unpack_be}
use shin_vpn.Prelude.Utf8.{Text}
use shin_vpn.Protocol.Constants.{
  msg_handshake_resp, msg_proxy_connect, msg_proxy_data, msg_proxy_close, msg_speedtest_req,
  msg_speedtest_data,
}
use shin_vpn.Protocol.Frames.{shin_frame, ShinFrame, new, with_type, to_bytes}
use shin_vpn.Protocol.Frames.ProxyConnect.{proxy_connect_payload}
use shin_vpn.Protocol.Frames.SpeedtestReq.{speedtest_req_payload}
use shin_vpn.Protocol.Parse.{parse_frame}
use shin_vpn.Crypto.Aead.{Aead}
use shin_vpn.Crypto.Primitives.{Primitives}
use shin_vpn.Crypto.Cipher.{encrypt, decrypt}
use shin_vpn.Client.{
  ShinVpnClient, connected, authenticating, in_state, is_some, send_raw, on_handshake_resp,
}

module _ (aead : Aead) where
  -- tx_cipher.encrypt, and the sealed payload sent in a plain frame with its type.
  unfoldable pub send_sealed : ℕ → Bytes → Exec ShinVpnClient (Unit {0})
  send_sealed msg_type payload c = elim c.tx_cipher [
    | none ↦ (c, err Errors.type_error)
    | some tx ↦
        let sealed = encrypt aead tx payload none in
        let c' = record c { tx_cipher = some sealed.0 } in
        elim sealed.1 [
          | err e ↦ (c', err e)
          | ok (seq, ciphertext) ↦
              elim (to_bytes (with_type msg_type (new shin_frame c'.session_id seq ciphertext))) [
                | err e ↦ (c', err e)
                | ok raw ↦ (send_raw raw c', ok tt)
              ]
        ]
  ]

  unfoldable pub async_send_proxy : ℕ → ℕ → Text → ℕ → Bytes → Exec ShinVpnClient (Unit {0})
  async_send_proxy conn_id action host port data_ =
      if action == 1
      then (do
        raw_payload ← lift (proxy_connect_payload conn_id host port)
        send_sealed msg_proxy_connect raw_payload)
      else if action == 2
      then (do id ← lift (pack_be 4 conn_id); send_sealed msg_proxy_data (id ++ data_))
      else if action == 3
      then (do id ← lift (pack_be 4 conn_id); send_sealed msg_proxy_close id)
      else pure tt

  -- The callback of the local proxy: only while connected.
  unfoldable pub send_proxy_frame_from_local :
      ℕ → ℕ → Text → ℕ → Bytes → ShinVpnClient → ShinVpnClient
  send_proxy_frame_from_local conn_id action host port data_ c =
      if is_some c.tx_cipher && in_state connected c.state
      then (async_send_proxy conn_id action host port data_ c).0
      else c

  -- rx_cipher.decrypt(frame.seq_num, frame.payload)
  unfoldable pub open_frame : ShinFrame → Exec ShinVpnClient Bytes
  open_frame f c = elim c.rx_cipher [
    | none ↦ (c, err Errors.type_error)
    | some rx ↦
        let opened = decrypt aead rx f.seq_num f.payload none in
        (record c { rx_cipher = some opened.0 }, opened.1)
  ]

  unfoldable pub on_proxy_data : ShinFrame → Exec ShinVpnClient (Unit {0})
  on_proxy_data f = do
    plaintext ← open_frame f
    conn_id ← lift (unpack_be 4 (take 4 plaintext))
    modify (λ c. record c { fed = c.fed ++ ((conn_id, drop 4 plaintext) ∷ []) })

  unfoldable pub on_proxy_close : ShinFrame → Exec ShinVpnClient (Unit {0})
  on_proxy_close f = do
    plaintext ← open_frame f
    conn_id ← lift (unpack_be 4 (take 4 plaintext))
    modify (λ c. record c { closed = c.closed ++ (conn_id ∷ []) })

  unfoldable pub dispatch : Primitives → ShinFrame → ShinVpnClient → ShinVpnClient
  dispatch P f c =
      if f.msg_type == msg_handshake_resp && in_state authenticating c.state
      then on_handshake_resp P f c
      else if f.msg_type == msg_speedtest_data
      then (if is_some c.rx_cipher then (open_frame f c).0 else c)
      else if f.msg_type == msg_proxy_data
      then (if is_some c.rx_cipher && c.has_proxy then (on_proxy_data f c).0 else c)
      else if f.msg_type == msg_proxy_close
      then (if is_some c.rx_cipher && c.has_proxy then (on_proxy_close f c).0 else c)
      else c

  unfoldable pub on_packet_received : Primitives → ℕ → Bytes → ShinVpnClient → ShinVpnClient
  on_packet_received P now raw_data c =
      let c' = record c {
        bytes_rx = c.bytes_rx + length raw_data;
        packets_rx = c.packets_rx + 1;
      } in
      elim (parse_frame now raw_data) [ err e ↦ c' | ok f ↦ dispatch P f c' ]

  -- The upload half of run_speedtest, from chunk `i` on.
  unfoldable pub send_upload : ℕ → ℕ → ℕ → Exec ShinVpnClient (Unit {0})
  send_upload probe_id i zero = pure tt
  send_upload probe_id i (suc left) = do
    id ← lift (pack_be 4 probe_id)
    index ← lift (pack_be 4 i)
    send_sealed msg_speedtest_data (id ++ (index ++ replicate 1150 b'U'))
    send_upload probe_id (i + 1) left

  unfoldable pub request_download : ℕ → Exec ShinVpnClient (Unit {0})
  request_download probe_id = do
    probe_payload ← lift (speedtest_req_payload probe_id 250 1200)
    send_sealed msg_speedtest_req probe_payload
