-- ===== src/Protocol/Frames/ProxyConnect.antt =====
-- `ProxyConnectFrame` of shinvpn/protocol/frames.py.
use shin_vpn.Prelude.{ℕ, ◌+◌, Bytes, ◌++◌, length, take, drop, slice, Result, ok, ◌>>=◌}
use shin_vpn.Prelude.Struct.{value_be, pack_be, unpack_be}
use shin_vpn.Prelude.Utf8.{Text, encode, decode}
use shin_vpn.Protocol.Frames.{proxy_connect, ShinFrame, new, or_build}

unfoldable pub proxy_connect_payload : ℕ → Text → ℕ → Result Bytes
proxy_connect_payload conn_id host port = do
  host_bytes ← encode host
  conn ← pack_be 4 conn_id
  prt ← pack_be 2 port
  len ← pack_be 2 (length host_bytes)
  ok (conn ++ (prt ++ (len ++ host_bytes)))

unfoldable pub new_proxy_connect : ℕ → ℕ → ℕ → Text → ℕ → Bytes → Result ShinFrame
new_proxy_connect session_id seq_num conn_id host port payload = do
  p ← or_build payload (proxy_connect_payload conn_id host port)
  ok (new proxy_connect session_id seq_num p)

-- struct.unpack("!IH", self.payload[:6]) wants six bytes.
unfoldable pub conn_id : ShinFrame → Result ℕ
conn_id f = do six ← unpack_be 6 (take 6 f.payload); ok (value_be (take 4 (take 6 f.payload)))

unfoldable pub port : ShinFrame → Result ℕ
port f = do six ← unpack_be 6 (take 6 f.payload); ok (value_be (drop 4 (take 6 f.payload)))

unfoldable pub host : ShinFrame → Result Text
host f = do h_len ← unpack_be 2 (slice 6 8 f.payload); decode (slice 8 (8 + h_len) f.payload)
