-- ===== src/Protocol/Frames/MultiHopForward.antt =====
-- `MultiHopForwardFrame` of shinvpn/protocol/frames.py.
use shin_vpn.Prelude.{
  ℕ, ◌+◌, Bytes, [], ◌∷◌, ◌++◌, length, drop, slice, Result, ok, err, index_error, ◌>>=◌,
}
use shin_vpn.Prelude.Struct.{pack_be, unpack_be}
use shin_vpn.Prelude.Utf8.{Text, encode, decode_replace}
use shin_vpn.Protocol.Frames.{multihop_forward, ShinFrame, new, or_build}

unfoldable pub multihop_payload : Text → ℕ → Bytes → Result Bytes
multihop_payload next_host next_port inner_frame_data = do
  host_b ← encode next_host
  len ← pack_be 1 (length host_b)
  port ← pack_be 2 next_port
  ok (len ++ (host_b ++ (port ++ inner_frame_data)))

unfoldable pub new_multihop_forward : ℕ → ℕ → Text → ℕ → Bytes → Bytes → Result ShinFrame
new_multihop_forward session_id seq_num next_host next_port inner_frame_data payload = do
  p ← or_build payload (multihop_payload next_host next_port inner_frame_data)
  ok (new multihop_forward session_id seq_num p)

-- self.payload[0]
unfoldable pub hlen : Bytes → Result ℕ
hlen [] = err index_error
hlen (b ∷ r) = ok b

unfoldable pub next_host : ShinFrame → Result Text
unfolding hlen
next_host f = do n ← hlen f.payload; ok (decode_replace (slice 1 (1 + n) f.payload))

unfoldable pub next_port : ShinFrame → Result ℕ
unfolding hlen
next_port f = do n ← hlen f.payload; unpack_be 2 (slice (1 + n) (3 + n) f.payload)

unfoldable pub inner_frame_data : ShinFrame → Result Bytes
unfolding hlen
inner_frame_data f = do n ← hlen f.payload; ok (drop (3 + n) f.payload)
