-- ===== src/Tests/Protocol.antt =====
-- Frames on small inputs.
use shin_vpn.Prelude.{Bytes, [], ◌∷◌, ◌++◌, ok, value_error, ◌≡◌, refl, arith, inl}
use shin_vpn.Prelude.Struct.{be, value_be, pack_be, le}
use shin_vpn.Prelude.Utf8.{Text}
use shin_vpn.Protocol.Header.{FrameHeader, pack, unpack}
use shin_vpn.Protocol.Frames.{FrameClass, data_packet, ShinFrame, new, to_bytes}
use shin_vpn.Protocol.Parse.{frame_type, from_header_and_payload, parse_frame}
use shin_vpn.Protocol.Parse.Roundtrip.{parse_frame-to_bytes, to_bytes-parse_frame}
use shin_vpn.Protocol.Parse.Outcome.{parse_frame-value_error}

-- "SHIN", version 1, type 3, session 7, sequence number 9, two bytes.
abbrev wire : Bytes
wire =
    83 ∷ 72 ∷ 73 ∷ 78 ∷ 1 ∷ 3 ∷ 0 ∷ 0 ∷ 0 ∷ 7 ∷ 0 ∷ 0 ∷ 0 ∷ 0 ∷ 0 ∷ 0 ∷ 0 ∷ 9 ∷ 0 ∷ 2 ∷ 65 ∷ 66 ∷ []

abbrev packet : ShinFrame
packet = new data_packet 7 9 (65 ∷ 66 ∷ [])

abbrev head : FrameHeader
head = record { version = 1; msg_type = 3; session_id = 7; seq_num = 9; payload_len = 2 }

to_bytes-wire : to_bytes packet ≡ ok wire
unfolding to_bytes pack pack_be be le
to_bytes-wire = refl

unpack-wire : unpack wire ≡ ok head
unfolding unpack value_be
unpack-wire = refl

parse_frame-wire : parse_frame 0 wire ≡ ok packet
unfolding parse_frame unpack value_be from_header_and_payload frame_type
parse_frame-wire = refl

parse_frame-to_bytes_example : parse_frame 5 (wire ++ (1 ∷ 2 ∷ [])) ≡ ok packet
parse_frame-to_bytes_example =
    parse_frame-to_bytes 5 packet wire (1 ∷ 2 ∷ [])
      (record { type_of_class = refl; not_filled = inl refl }) to_bytes-wire

to_bytes-parse_frame_example :
    (start : Bytes) × (rest : Bytes) × (to_bytes packet ≡ ok start) × (wire ≡ start ++ rest)
to_bytes-parse_frame_example =
    to_bytes-parse_frame 0 packet wire head (ground arith) unpack-wire
      (unfold frame_type in λ e. absurd (cc)) (omega arith) parse_frame-wire

value_error_example : value_error ≡ value_error
value_error_example =
    parse_frame-value_error 0 (1 ∷ 2 ∷ []) value_error (unfold parse_frame in refl)

abbrev host : Text
host = 97 ∷ 46 ∷ 98 ∷ []

abbrev connect : ShinFrame
connect = new FrameClass.proxy_connect 7 9 (0 ∷ 0 ∷ 0 ∷ 4 ∷ 1 ∷ 187 ∷ 0 ∷ 3 ∷ 97 ∷ 46 ∷ 98 ∷ [])

abbrev forward : ShinFrame
forward = new FrameClass.multihop_forward 7 9 (3 ∷ 97 ∷ 46 ∷ 98 ∷ 1 ∷ 187 ∷ 5 ∷ 6 ∷ [])
