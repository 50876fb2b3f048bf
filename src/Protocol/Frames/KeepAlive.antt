-- ===== src/Protocol/Frames/KeepAlive.antt =====
-- `KeepAliveFrame` of shinvpn/protocol/frames.py.
use mathlib.Core.Option.{get_or}
use shin_vpn.Prelude.{ℕ, Bytes, Option, if◌then◌else◌, leb, length, take, is_empty}
use shin_vpn.Prelude.Struct.{be, value_be}
use shin_vpn.Protocol.Frames.{keepalive, ShinFrame, new}

-- `now` is what time.time() returns.
unfoldable pub new_keepalive : ℕ → ℕ → ℕ → Option ℕ → Bytes → ShinFrame
new_keepalive now session_id seq_num timestamp payload =
    new keepalive session_id seq_num
      (if is_empty payload then be 8 (get_or timestamp now) else payload)

unfoldable pub timestamp : ShinFrame → ℕ
timestamp f = if leb 8 (length f.payload) then value_be (take 8 f.payload) else 0
