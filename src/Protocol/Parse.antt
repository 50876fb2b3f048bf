-- ===== src/Protocol/Parse.antt =====
-- FRAME_TYPE_MAP and `parse_frame` of shinvpn/protocol/frames.py.
pub mod Roundtrip
pub mod Outcome
use shin_vpn.Prelude.{
  ℕ, ◌+◌, Bytes, [], none, Result, ok, err, value_error, ◌>>=◌, length, slice, ltb, ◌==◌,
  if◌then◌else◌,
}
use shin_vpn.Protocol.Constants.{
  msg_handshake_init, msg_handshake_resp, msg_data_packet, msg_keepalive, msg_rekey_init,
  msg_rekey_resp, msg_disconnect, msg_proxy_connect, msg_proxy_data, msg_proxy_close,
  msg_speedtest_req, msg_speedtest_data, msg_multihop_forward,
}
use shin_vpn.Protocol.Header.{FrameHeader, header_len, unpack}
use shin_vpn.Protocol.Frames.{
  FrameClass, shin_frame, handshake_init, handshake_resp, data_packet, keepalive, rekey_init,
  rekey_resp, disconnect, proxy_connect, proxy_data, proxy_close, speedtest_req, speedtest_data,
  multihop_forward, ShinFrame, new,
}
use shin_vpn.Protocol.Frames.ProxyConnect.{new_proxy_connect}
use shin_vpn.Protocol.Frames.ProxyData.{new_proxy_data}
use shin_vpn.Protocol.Frames.ProxyClose.{new_proxy_close}
use shin_vpn.Protocol.Frames.SpeedtestReq.{new_speedtest_req}
use shin_vpn.Protocol.Frames.SpeedtestData.{new_speedtest_data}
use shin_vpn.Protocol.Frames.MultiHopForward.{new_multihop_forward}
use shin_vpn.Protocol.Frames.KeepAlive.{new_keepalive}

-- FRAME_TYPE_MAP.get(msg_type, ShinFrame)
unfoldable pub frame_type : ℕ → FrameClass
frame_type t =
    if t == msg_handshake_init
    then handshake_init
    else if t == msg_handshake_resp
    then handshake_resp
    else if t == msg_data_packet
    then data_packet
    else if t == msg_keepalive
    then keepalive
    else if t == msg_rekey_init
    then rekey_init
    else if t == msg_rekey_resp
    then rekey_resp
    else if t == msg_disconnect
    then disconnect
    else if t == msg_proxy_connect
    then proxy_connect
    else if t == msg_proxy_data
    then proxy_data
    else if t == msg_proxy_close
    then proxy_close
    else if t == msg_speedtest_req
    then speedtest_req
    else if t == msg_speedtest_data
    then speedtest_data
    else if t == msg_multihop_forward
    then multihop_forward
    else shin_frame

-- cls(session_id=..., seq_num=..., payload=...): the other arguments have their defaults.
unfoldable pub from_header_and_payload : ℕ → FrameClass → FrameHeader → Bytes → Result ShinFrame
from_header_and_payload now keepalive h p = ok (new_keepalive now h.session_id h.seq_num none p)
from_header_and_payload now proxy_connect h p = new_proxy_connect h.session_id h.seq_num 0 [] 0 p
from_header_and_payload now proxy_data h p = new_proxy_data h.session_id h.seq_num 0 [] p
from_header_and_payload now proxy_close h p = new_proxy_close h.session_id h.seq_num 0 p
from_header_and_payload now speedtest_req h p = new_speedtest_req h.session_id h.seq_num 0 10 1024 p
from_header_and_payload now speedtest_data h p = new_speedtest_data h.session_id h.seq_num 0 0 [] p
from_header_and_payload now multihop_forward h p =
    new_multihop_forward h.session_id h.seq_num [] 0 [] p
from_header_and_payload now class h p = ok (new class h.session_id h.seq_num p)

unfoldable pub parse_frame : ℕ → Bytes → Result ShinFrame
parse_frame now raw =
    if ltb (length raw) header_len
    then err value_error
    else (unpack raw >>= λ h.
        let expected_len = header_len + h.payload_len in
        let payload = slice header_len expected_len raw in
        if ltb (length raw) expected_len
        then err value_error
        else from_header_and_payload now (frame_type h.msg_type) h payload)
