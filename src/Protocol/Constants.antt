-- ===== src/Protocol/Constants.antt =====
-- shinvpn/protocol/constants.py.
use shin_vpn.Prelude.{ℕ, Bytes, [], ◌∷◌}

-- b"SHIN"
abbrev pub magic_bytes : Bytes
magic_bytes = 0x53 ∷ 0x48 ∷ 0x49 ∷ 0x4e ∷ []

abbrev pub protocol_version : ℕ
protocol_version = 1

abbrev pub msg_handshake_init : ℕ
msg_handshake_init = 0x01

abbrev pub msg_handshake_resp : ℕ
msg_handshake_resp = 0x02

abbrev pub msg_data_packet : ℕ
msg_data_packet = 0x03

abbrev pub msg_keepalive : ℕ
msg_keepalive = 0x04

abbrev pub msg_rekey_init : ℕ
msg_rekey_init = 0x05

abbrev pub msg_rekey_resp : ℕ
msg_rekey_resp = 0x06

abbrev pub msg_disconnect : ℕ
msg_disconnect = 0x07

abbrev pub msg_proxy_connect : ℕ
msg_proxy_connect = 0x08

abbrev pub msg_proxy_data : ℕ
msg_proxy_data = 0x09

abbrev pub msg_proxy_close : ℕ
msg_proxy_close = 0x0a

abbrev pub msg_speedtest_req : ℕ
msg_speedtest_req = 0x0b

abbrev pub msg_speedtest_data : ℕ
msg_speedtest_data = 0x0c

abbrev pub msg_multihop_forward : ℕ
msg_multihop_forward = 0x0d
