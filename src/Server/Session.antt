-- ===== src/Server/Session.antt =====
-- `ClientSession` of shinvpn/server/server.py, and the handlers of ShinVPNServer for the frames of
-- one session. What a handler sends, writes to the TUN device or starts is recorded. A handler is
-- one step: what other tasks do while it awaits is not seen. A writer is what was written to it.
pub mod Streams
use shin_vpn.Prelude.{
  ℕ, zero, suc, ◌+◌, ◌-◌, min, Bytes, List, [], ◌∷◌, ◌++◌, Bool, true, false, not, ◌&&◌, ◌||◌,
  if◌then◌else◌, ◌==◌, ltb, Option, none, some, Result, ok, err, length, take, drop, slice,
  replicate, is_empty,
}
use shin_vpn.Prelude.Errors
use shin_vpn.Prelude.Exec.{Exec, pure, lift, gets, modify, ◌>>=◌, ◌>>◌}
use shin_vpn.Prelude.Assoc.{Assoc, lookup, has, insert, erase}
use shin_vpn.Prelude.Struct.{pack_be, unpack_be, value_be}
use shin_vpn.Prelude.Utf8.{Text, decode_replace}
use shin_vpn.Protocol.Constants.{
  msg_proxy_connect, msg_proxy_data, msg_proxy_close, msg_speedtest_req, msg_speedtest_data,
  msg_keepalive, msg_data_packet,
}
use shin_vpn.Protocol.Frames.{shin_frame, ShinFrame, new, with_type, to_bytes}
use shin_vpn.Protocol.Frames.KeepAlive.{new_keepalive}
use shin_vpn.Protocol.Frames.SpeedtestReq.{fields}
use shin_vpn.Crypto.Aead.{Aead}
use shin_vpn.Crypto.Cipher.{ShinCipher, encrypt, decrypt}

pub data Transport : Type 0 where
  udp stealth : Transport

pub record Writer : Type 0 where
  pub written : Bytes
  pub is_closing : Bool

-- A time is a number of ticks.
pub record ClientSession : Type 0 where
  pub session_id : ℕ
  pub client_pub : Bytes
  pub client_addr : Text × ℕ
  pub virtual_ip : Text
  pub tx_cipher : ShinCipher
  pub rx_cipher : ShinCipher
  pub transport_type : Transport
  pub has_send_cb : Bool
  pub created_at : ℕ
  pub last_seen : ℕ
  pub bytes_tx : ℕ
  pub bytes_rx : ℕ
  pub proxy_streams : Assoc ℕ Writer
  pub proxy_pending_buffers : Assoc ℕ Bytes
  pub proxy_connecting : List ℕ

-- A session while the server works for it: what it sent, the packets for the TUN device, and the
-- connections that were asked for.
pub record Serving : Type 0 where
  pub session : ClientSession
  pub sent : List Bytes
  pub tun_packets : List Bytes
  pub opening : List (ℕ × Text × ℕ)

abbrev pub with_session : (ClientSession → ClientSession) → Serving → Serving
with_session f v = record v { session = f v.session }

-- A set of numbers: in, add and discard.

abbrev pub member : ℕ → List ℕ → Bool
member x [] = false
member x (y ∷ ys) = y == x || member x ys

abbrev pub set_add : ℕ → List ℕ → List ℕ
set_add x ys = if member x ys then ys else x ∷ ys

unfoldable pub set_discard : ℕ → List ℕ → List ℕ
set_discard x [] = []
set_discard x (y ∷ ys) = let rest = set_discard x ys in if y == x then rest else y ∷ rest

abbrev pub can_send : ClientSession → Bool
can_send s = elim s.transport_type [ udp ↦ true | stealth ↦ s.has_send_cb ]

unfoldable pub send_to_client : Bytes → Serving → Serving
send_to_client raw_data v = record v {
  session = record (v.session) { bytes_tx = v.session.bytes_tx + length raw_data };
  sent = if can_send v.session then v.sent ++ (raw_data ∷ []) else v.sent;
}

module _ (aead : Aead) where
  -- session.rx_cipher.decrypt(frame.seq_num, frame.payload)
  unfoldable pub open_frame : ShinFrame → Exec Serving Bytes
  open_frame f v =
      let r = decrypt aead v.session.rx_cipher f.seq_num f.payload none in
      (with_session (λ s. record s { rx_cipher = r.0 }) v, r.1)

  -- session.tx_cipher.encrypt(payload)
  unfoldable pub seal : Bytes → Exec Serving (ℕ × Bytes)
  seal payload v =
      let r = encrypt aead v.session.tx_cipher payload none in
      (with_session (λ s. record s { tx_cipher = r.0 }) v, r.1)

  -- Encrypts a payload, and sends it in a plain frame with its type.
  unfoldable pub send_sealed : ℕ → Bytes → Exec Serving (Unit {0})
  send_sealed msg_type payload = do
    sealed ← seal payload
    v ← gets (λ v. v)
    raw ←
        lift (to_bytes (with_type msg_type (new shin_frame v.session.session_id sealed.0 sealed.1)))
    modify (send_to_client raw)

  unfoldable pub handle_keepalive : ℕ → ShinFrame → Exec Serving (Unit {0})
  handle_keepalive now f = do
    v ← gets (λ v. v)
    raw ← lift (to_bytes (new_keepalive now v.session.session_id f.seq_num none []))
    modify (send_to_client raw)

  unfoldable pub handle_data_packet : Bool → ShinFrame → Exec Serving (Unit {0})
  handle_data_packet tun_is_open f = do
    plaintext ← open_frame f
    modify (λ v.
        if tun_is_open then record v { tun_packets = v.tun_packets ++ (plaintext ∷ []) } else v)

  -- The loop over the chunks, from chunk `i` on.
  unfoldable pub send_chunks : ℕ → Bytes → ℕ → ℕ → Exec Serving (Unit {0})
  send_chunks probe_id dummy_block i zero = pure tt
  send_chunks probe_id dummy_block i (suc left) = do
    id ← lift (pack_be 4 probe_id)
    index ← lift (pack_be 4 i)
    send_sealed msg_speedtest_data (id ++ (index ++ dummy_block))
    send_chunks probe_id dummy_block (i + 1) left

  unfoldable pub handle_speedtest_req : ShinFrame → Exec Serving (Unit {0})
  handle_speedtest_req f = do
    plaintext ← open_frame f
    (probe_id, chunk_count, chunk_size) ← lift (fields plaintext)
    send_chunks probe_id (replicate (min chunk_size 1300 - 8) b'X') 0 (min chunk_count 500)

  -- The three kinds of proxy frame, after decryption.

  unfoldable pub proxy_connect : Bytes → Exec Serving (Unit {0})
  proxy_connect payload = do
    all ← lift (unpack_be 8 (take 8 payload))
    let conn_id = value_be (take 4 payload)
    let port = value_be (slice 4 6 payload)
    let host = decode_replace (slice 8 (8 + value_be (slice 6 8 payload)) payload)
    modify (
        with_session (λ s. record s {
          proxy_connecting = set_add conn_id s.proxy_connecting;
          proxy_pending_buffers = insert ◌==◌ conn_id [] s.proxy_pending_buffers;
        }))
    modify (λ v. record v { opening = v.opening ++ ((conn_id, host, port) ∷ []) })

  -- Data for a stream is written; data for a connection still being made is kept for it.
  unfoldable pub deliver : ℕ → Bytes → ClientSession → ClientSession
  deliver conn_id data_ s = elim (lookup ◌==◌ conn_id s.proxy_streams) [
    | some w ↦ if w.is_closing then s else record s {
      proxy_streams =
          insert ◌==◌ conn_id (record w { written = w.written ++ data_ }) s.proxy_streams;
    }
    | none ↦
        if member conn_id s.proxy_connecting
        then elim (lookup ◌==◌ conn_id s.proxy_pending_buffers) [
          | none ↦ s
          | some buffer ↦ record s {
            proxy_pending_buffers = insert ◌==◌ conn_id (buffer ++ data_) s.proxy_pending_buffers;
          }
        ]
        else s
  ]

  unfoldable pub proxy_data : Bytes → Exec Serving (Unit {0})
  proxy_data payload = do
    conn_id ← lift (unpack_be 4 (take 4 payload))
    modify (with_session (deliver conn_id (drop 4 payload)))

  -- Forgets a connection and closes its stream.
  unfoldable pub drop_connection : ℕ → ClientSession → ClientSession
  drop_connection conn_id s = record s {
    proxy_connecting = set_discard conn_id s.proxy_connecting;
    proxy_pending_buffers = erase ◌==◌ conn_id s.proxy_pending_buffers;
    proxy_streams = erase ◌==◌ conn_id s.proxy_streams;
  }

  unfoldable pub proxy_close : Bytes → Exec Serving (Unit {0})
  proxy_close payload = do
    conn_id ← lift (unpack_be 4 (take 4 payload))
    modify (with_session (drop_connection conn_id))

  unfoldable pub handle_proxy_frame : ShinFrame → Exec Serving (Unit {0})
  handle_proxy_frame f = do
    payload ← open_frame f
    if f.msg_type == msg_proxy_connect
        then proxy_connect payload
        else if f.msg_type == msg_proxy_data
        then proxy_data payload
        else if f.msg_type == msg_proxy_close
        then proxy_close payload
        else pure tt

  -- _open_remote_proxy_connection, in the steps between its awaits.

  -- The connection stands: the stream is filed and gets what arrived meanwhile.
  unfoldable pub connection_opened : ℕ → ClientSession → ClientSession
  connection_opened conn_id s = record s {
    proxy_connecting = set_discard conn_id s.proxy_connecting;
    proxy_pending_buffers = erase ◌==◌ conn_id s.proxy_pending_buffers;
    proxy_streams =
        insert ◌==◌ conn_id
          (record {
            written = elim (lookup ◌==◌ conn_id s.proxy_pending_buffers) [ none ↦ [] | some b ↦ b ];
            is_closing = false;
          })
          s.proxy_streams;
  }

  -- A chunk from the remote end goes to the client.
  unfoldable pub remote_data : ℕ → Bytes → Exec Serving (Unit {0})
  remote_data conn_id data_ = do
    id ← lift (pack_be 4 conn_id)
    send_sealed msg_proxy_data (id ++ data_)

  -- The `finally` block.
  unfoldable pub connection_closed : ℕ → Exec Serving (Unit {0})
  connection_closed conn_id = do
    modify (with_session (drop_connection conn_id))
    id ← lift (pack_be 4 conn_id)
    send_sealed msg_proxy_close id
