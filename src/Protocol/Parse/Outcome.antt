-- ===== src/Protocol/Parse/Outcome.antt =====
-- Which buffers parse, and into what.
use shin_vpn.Prelude.{
  ℕ, ◌+◌, ◌≤◌, ◌<◌, Bytes, [], ◌∷◌, Result, Error, ok, err, value_error, length, slice, ltb, ◌≡◌,
  refl, arith, false, inl, inr, Bool-cases, le→ltb, ltb→lt, ltb→le,
}
use shin_vpn.Prelude.Struct.{pack_be}
use shin_vpn.Prelude.Utf8.{encode}
use shin_vpn.Protocol.Header.{FrameHeader, header_len, unpack, exact_length}
use shin_vpn.Protocol.Frames.{
  FrameClass, proxy_connect, proxy_data, proxy_close, speedtest_req, speedtest_data,
  multihop_forward, ShinFrame, class_msg_type, new,
}
use shin_vpn.Protocol.Frames.KeepAlive.{new_keepalive}
use shin_vpn.Protocol.Frames.ProxyConnect.{new_proxy_connect, proxy_connect_payload}
use shin_vpn.Protocol.Frames.ProxyData.{new_proxy_data, proxy_data_payload}
use shin_vpn.Protocol.Frames.ProxyClose.{new_proxy_close}
use shin_vpn.Protocol.Frames.SpeedtestReq.{new_speedtest_req, speedtest_req_payload}
use shin_vpn.Protocol.Frames.SpeedtestData.{new_speedtest_data, speedtest_data_payload}
use shin_vpn.Protocol.Frames.MultiHopForward.{new_multihop_forward, multihop_payload}
use shin_vpn.Protocol.Parse.{frame_type, from_header_and_payload, parse_frame}

-- A frame of the class and with the numbers of its header.
pub record Carries (c : FrameClass) (h : FrameHeader) (f : ShinFrame) : Type 0 where
  pub class : f.class ≡ c
  pub msg_type : f.msg_type ≡ class_msg_type c
  pub session_id : f.session_id ≡ h.session_id
  pub seq_num : f.seq_num ≡ h.seq_num

-- The call returned a frame of the class.
abbrev Built : Result ShinFrame → FrameClass → FrameHeader → Type 0
Built r c h = (f : ShinFrame) × (r ≡ ok f) × Carries c h f

built :
    (c : FrameClass) (h : FrameHeader) (p : Bytes) → Built (ok (new c h.session_id h.seq_num p)) c h
built c h p = (
  new c h.session_id h.seq_num p,
  refl,
  record { class = refl; msg_type = refl; session_id = refl; seq_num = refl },
)

-- No constructor fails on an empty payload: all the defaults fit their fields.
from_header_total :
    (now : ℕ) (c : FrameClass) (h : FrameHeader) (p : Bytes)
    → Built (from_header_and_payload now c h p) c h
unfolding from_header_and_payload new_keepalive new_proxy_connect new_proxy_data new_proxy_close
    new_speedtest_req new_speedtest_data new_multihop_forward proxy_connect_payload
    proxy_data_payload speedtest_req_payload speedtest_data_payload multihop_payload pack_be encode
from_header_total now proxy_connect h [] = built proxy_connect h _
from_header_total now proxy_connect h (b ∷ p) = built proxy_connect h _
from_header_total now proxy_data h [] = built proxy_data h _
from_header_total now proxy_data h (b ∷ p) = built proxy_data h _
from_header_total now proxy_close h [] = built proxy_close h _
from_header_total now proxy_close h (b ∷ p) = built proxy_close h _
from_header_total now speedtest_req h [] = built speedtest_req h _
from_header_total now speedtest_req h (b ∷ p) = built speedtest_req h _
from_header_total now speedtest_data h [] = built speedtest_data h _
from_header_total now speedtest_data h (b ∷ p) = built speedtest_data h _
from_header_total now multihop_forward h [] = built multihop_forward h _
from_header_total now multihop_forward h (b ∷ p) = built multihop_forward h _
from_header_total now c h p = built c h _

-- A buffer with a valid header that holds the payload that the header announces parses, into a
-- frame of the class of the type, with the session and the sequence number of the header.
pub parse_frame-whole :
    (now : ℕ) (raw : Bytes) (h : FrameHeader)
    → unpack raw ≡ ok h
    → 20 + h.payload_len ≤ length raw
    → Built (parse_frame now raw) (frame_type h.msg_type) h
unfolding parse_frame
parse_frame-whole now raw h u enough =
    let long : ltb (length raw) header_len ≡ false = le→ltb _ _ (omega arith) in
    let holds : ltb (length raw) (20 + h.payload_len) ≡ false = le→ltb _ _ enough in
    rw (long, u, holds)
      (from_header_total now (frame_type h.msg_type) h (slice 20 (20 + h.payload_len) raw))

parse_frame-short :
    (now : ℕ) (raw : Bytes) (h : FrameHeader)
    → unpack raw ≡ ok h
    → length raw < 20 + h.payload_len
    → parse_frame now raw ≡ err value_error
unfolding parse_frame
parse_frame-short now raw h u short = ground arith

unpack-value_error : (raw : Bytes) (e : Error) → unpack raw ≡ err e → e ≡ value_error
unfolding unpack
unpack-value_error raw e h = ground (arith, exact_length raw)

same_error : {a b : Error} {r : Result ShinFrame} → r ≡ err a → r ≡ err b → a ≡ b
same_error p q = cc

refused_alike :
    (now : ℕ) (raw : Bytes) (e : Error) (u : Result FrameHeader)
    → unpack raw ≡ u
    → parse_frame now raw ≡ err e
    → e ≡ value_error
refused_alike now raw e (ok h) u r = elim (Bool-cases (ltb (length raw) (20 + h.payload_len))) [
  | inl less ↦ same_error r (parse_frame-short now raw h u (ltb→lt _ _ less))
  | inr enough ↦
      let (f, parsed, carries) = parse_frame-whole now raw h u (ltb→le _ _ enough) in absurd (cc)
]
refused_alike now raw e (err x) u r =
    unfold parse_frame in ground (arith, unpack-value_error raw x u)

-- Whatever is wrong with a buffer, `parse_frame` raises ValueError and no other exception.
pub parse_frame-value_error :
    (now : ℕ) (raw : Bytes) (e : Error) → parse_frame now raw ≡ err e → e ≡ value_error
parse_frame-value_error now raw e h = refused_alike now raw e (unpack raw) refl h
