-- ===== src/Protocol/Frames/SpeedtestData.antt =====
-- `SpeedtestDataFrame` of shinvpn/protocol/frames.py.
use shin_vpn.Prelude.{ℕ, Bytes, ◌++◌, take, drop, slice, Result, ok, ◌>>=◌}
use shin_vpn.Prelude.Struct.{value_be, pack_be, unpack_be}
use shin_vpn.Protocol.Frames.{speedtest_data, ShinFrame, new, or_build}

unfoldable pub speedtest_data_payload : ℕ → ℕ → Bytes → Result Bytes
speedtest_data_payload probe_id chunk_idx data_block = do
  a ← pack_be 4 probe_id
  b ← pack_be 4 chunk_idx
  ok (a ++ (b ++ data_block))

unfoldable pub new_speedtest_data : ℕ → ℕ → ℕ → ℕ → Bytes → Bytes → Result ShinFrame
new_speedtest_data session_id seq_num probe_id chunk_idx data_block payload = do
  p ← or_build payload (speedtest_data_payload probe_id chunk_idx data_block)
  ok (new speedtest_data session_id seq_num p)

unfoldable pub probe_id : ShinFrame → Result ℕ
probe_id f = do all ← unpack_be 8 (take 8 f.payload); ok (value_be (slice 0 4 f.payload))

unfoldable pub chunk_idx : ShinFrame → Result ℕ
chunk_idx f = do all ← unpack_be 8 (take 8 f.payload); ok (value_be (slice 4 8 f.payload))

unfoldable pub data_block : ShinFrame → Bytes
data_block f = drop 8 f.payload
