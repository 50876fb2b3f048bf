-- ===== src/Protocol/Frames.antt =====
-- The frame classes of shinvpn/protocol/frames.py. A frame keeps its class beside `msg_type`,
-- since the callers assign `msg_type` on plain `ShinFrame` objects.
-- A float is its 64-bit IEEE pattern, so that struct.pack("!d", ...) writes eight bytes of it.
pub mod KeepAlive
pub mod ProxyConnect
pub mod ProxyData
pub mod ProxyClose
pub mod SpeedtestReq
pub mod SpeedtestData
pub mod MultiHopForward
use shin_vpn.Prelude.{
  ℕ, ◌+◌, ◌<◌, Bytes, [], ◌∷◌, ◌++◌, Bool, Option, none, some, if◌then◌else◌, leb, ◌==◌, length,
  take, drop, slice, is_empty, get_elem?, Result, ok, err, index_error, ◌>>=◌,
}
use shin_vpn.Prelude.Struct.{be, value_be, pack_be, unpack_be}
use shin_vpn.Prelude.Utf8.{Text, encode, decode, decode_replace}
use shin_vpn.Protocol.Constants.{
  protocol_version, msg_handshake_init, msg_handshake_resp, msg_data_packet, msg_keepalive,
  msg_rekey_init, msg_rekey_resp, msg_disconnect, msg_proxy_connect, msg_proxy_data,
  msg_proxy_close, msg_speedtest_req, msg_speedtest_data, msg_multihop_forward,
}
use shin_vpn.Protocol.Header.{FrameHeader, pack}

pub data FrameClass : Type 0 where
  shin_frame handshake_init handshake_resp data_packet keepalive rekey_init : FrameClass
  rekey_resp disconnect proxy_connect proxy_data proxy_close : FrameClass
  speedtest_req speedtest_data multihop_forward : FrameClass

-- The class attribute `msg_type`.
abbrev pub class_msg_type : FrameClass → ℕ
class_msg_type shin_frame = 0
class_msg_type handshake_init = msg_handshake_init
class_msg_type handshake_resp = msg_handshake_resp
class_msg_type data_packet = msg_data_packet
class_msg_type keepalive = msg_keepalive
class_msg_type rekey_init = msg_rekey_init
class_msg_type rekey_resp = msg_rekey_resp
class_msg_type disconnect = msg_disconnect
class_msg_type proxy_connect = msg_proxy_connect
class_msg_type proxy_data = msg_proxy_data
class_msg_type proxy_close = msg_proxy_close
class_msg_type speedtest_req = msg_speedtest_req
class_msg_type speedtest_data = msg_speedtest_data
class_msg_type multihop_forward = msg_multihop_forward

pub record ShinFrame : Type 0 where
  pub class : FrameClass
  pub msg_type : ℕ
  pub session_id : ℕ
  pub seq_num : ℕ
  pub payload : Bytes

-- ShinFrame.__init__, which the classes with no __init__ of their own inherit.
abbrev pub new : FrameClass → ℕ → ℕ → Bytes → ShinFrame
new class session_id seq_num payload = record {
  class = class;
  msg_type = class_msg_type class;
  session_id = session_id;
  seq_num = seq_num;
  payload = payload;
}

-- frame.msg_type = msg_type
abbrev pub with_type : ℕ → ShinFrame → ShinFrame
with_type msg_type f = record f { msg_type = msg_type }

abbrev pub header : ShinFrame → FrameHeader
header f = record {
  version = protocol_version;
  msg_type = f.msg_type;
  session_id = f.session_id;
  seq_num = f.seq_num;
  payload_len = length f.payload;
}

unfoldable pub to_bytes : ShinFrame → Result Bytes
to_bytes f = do raw ← pack (header f); ok (raw ++ f.payload)

-- The __init__ methods build a payload from their fields where the given one is empty.
abbrev pub or_build : Bytes → Result Bytes → Result Bytes
or_build payload built = if is_empty payload then built else ok payload
