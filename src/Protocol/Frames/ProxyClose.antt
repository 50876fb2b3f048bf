-- ===== src/Protocol/Frames/ProxyClose.antt =====
-- `ProxyCloseFrame` of shinvpn/protocol/frames.py.
use shin_vpn.Prelude.{ℕ, Bytes, take, Result, ok, ◌>>=◌}
use shin_vpn.Prelude.Struct.{pack_be, unpack_be}
use shin_vpn.Protocol.Frames.{proxy_close, ShinFrame, new, or_build}

unfoldable pub new_proxy_close : ℕ → ℕ → ℕ → Bytes → Result ShinFrame
new_proxy_close session_id seq_num conn_id payload = do
  p ← or_build payload (pack_be 4 conn_id)
  ok (new proxy_close session_id seq_num p)

unfoldable pub conn_id : ShinFrame → Result ℕ
conn_id f = unpack_be 4 (take 4 f.payload)
