-- ===== src/Protocol/Frames/SpeedtestReq.antt =====
-- `SpeedtestReqFrame` of shinvpn/protocol/frames.py.
use shin_vpn.Prelude.{ℕ, Bytes, ◌++◌, take, slice, Result, ok, ◌>>=◌}
use shin_vpn.Prelude.Struct.{value_be, pack_be, unpack_be}
use shin_vpn.Protocol.Frames.{speedtest_req, ShinFrame, new, or_build}

unfoldable pub speedtest_req_payload : ℕ → ℕ → ℕ → Result Bytes
speedtest_req_payload probe_id chunk_count chunk_size = do
  a ← pack_be 4 probe_id
  b ← pack_be 4 chunk_count
  c ← pack_be 4 chunk_size
  ok (a ++ (b ++ c))

unfoldable pub new_speedtest_req : ℕ → ℕ → ℕ → ℕ → ℕ → Bytes → Result ShinFrame
new_speedtest_req session_id seq_num probe_id chunk_count chunk_size payload = do
  p ← or_build payload (speedtest_req_payload probe_id chunk_count chunk_size)
  ok (new speedtest_req session_id seq_num p)

-- struct.unpack("!III", self.payload[:12])
unfoldable pub fields : Bytes → Result (ℕ × ℕ × ℕ)
fields p = do
  all ← unpack_be 12 (take 12 p)
  ok (value_be (slice 0 4 p), value_be (slice 4 8 p), value_be (slice 8 12 p))

unfoldable pub probe_id : ShinFrame → Result ℕ
unfolding fields
probe_id f = do (a, b, c) ← fields f.payload; ok a

unfoldable pub chunk_count : ShinFrame → Result ℕ
unfolding fields
chunk_count f = do (a, b, c) ← fields f.payload; ok b

unfoldable pub chunk_size : ShinFrame → Result ℕ
unfolding fields
chunk_size f = do (a, b, c) ← fields f.payload; ok c
