-- ===== src/Protocol/Frames/ProxyData.antt =====
-- `ProxyDataFrame` of shinvpn/protocol/frames.py.
use shin_vpn.Prelude.{ℕ, Bytes, ◌++◌, take, drop, Result, ok, ◌>>=◌}
use shin_vpn.Prelude.Struct.{pack_be, unpack_be}
use shin_vpn.Protocol.Frames.{proxy_data, ShinFrame, new, or_build}

unfoldable pub proxy_data_payload : ℕ → Bytes → Result Bytes
proxy_data_payload conn_id raw_data = do conn ← pack_be 4 conn_id; ok (conn ++ raw_data)

unfoldable pub new_proxy_data : ℕ → ℕ → ℕ → Bytes → Bytes → Result ShinFrame
new_proxy_data session_id seq_num conn_id raw_data payload = do
  p ← or_build payload (proxy_data_payload conn_id raw_data)
  ok (new proxy_data session_id seq_num p)

unfoldable pub conn_id : ShinFrame → Result ℕ
conn_id f = unpack_be 4 (take 4 f.payload)

unfoldable pub raw_data : ShinFrame → Bytes
raw_data f = drop 4 f.payload
