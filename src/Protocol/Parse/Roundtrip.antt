-- ===== src/Protocol/Parse/Roundtrip.antt =====
-- Parsing what `to_bytes` wrote, and writing what was parsed.
use mathlib.Core.List.{append_assoc}
use shin_vpn.Prelude.{
  ℕ, ◌+◌, ◌-◌, ◌≤◌, ◌<◌, Bytes, [], ◌∷◌, ◌++◌, Bool, true, false, Result, ok, >>=-eq-ok, length,
  drop, slice, is_empty, ◌≡◌, ◌≢◌, ◌⊎◌, inr, refl, sym, ap, ◌∙◌, arith, length-append, take-append,
  drop-append, take-append-drop, le→ltb, length-take_of_le, length-drop,
}
use shin_vpn.Prelude.Struct.{IsBytes}
use shin_vpn.Protocol.Header.{
  FrameHeader, layout, pack, unpack, pack_inv, pack-layout, unpack-layout, unpack_inv,
  length-layout,
}
use shin_vpn.Protocol.Frames.{
  FrameClass, shin_frame, keepalive, proxy_connect, proxy_data, proxy_close, speedtest_req,
  speedtest_data, multihop_forward, ShinFrame, class_msg_type, new, header, to_bytes,
}
use shin_vpn.Protocol.Frames.ProxyConnect.{new_proxy_connect}
use shin_vpn.Protocol.Frames.ProxyData.{new_proxy_data}
use shin_vpn.Protocol.Frames.ProxyClose.{new_proxy_close}
use shin_vpn.Protocol.Frames.SpeedtestReq.{new_speedtest_req}
use shin_vpn.Protocol.Frames.SpeedtestData.{new_speedtest_data}
use shin_vpn.Protocol.Frames.MultiHopForward.{new_multihop_forward}
use shin_vpn.Protocol.Frames.KeepAlive.{new_keepalive}
use shin_vpn.Protocol.Parse.{frame_type, from_header_and_payload, parse_frame}

-- The class has an __init__ that fills an empty payload.
abbrev pub fills : FrameClass → Bool
fills keepalive = true
fills proxy_connect = true
fills proxy_data = true
fills proxy_close = true
fills speedtest_req = true
fills speedtest_data = true
fills multihop_forward = true
fills c = false

-- A frame of one of the thirteen classes, with its type, and with a payload where the class would
-- fill an empty one.
pub record IsTyped (f : ShinFrame) : Type 0 where
  pub type_of_class : f.msg_type ≡ class_msg_type f.class
  pub not_filled : (fills f.class ≡ false) ⊎ (is_empty f.payload ≡ false)

frame_type-class_msg_type : (c : FrameClass) → frame_type (class_msg_type c) ≡ c
unfolding frame_type
frame_type-class_msg_type shin_frame = refl
frame_type-class_msg_type c = refl

class_msg_type-frame_type : (t : ℕ) → frame_type t ≢ shin_frame → class_msg_type (frame_type t) ≡ t
unfolding frame_type
class_msg_type-frame_type t h = ground arith

from_header_kept :
    (now : ℕ) (c : FrameClass) (h : FrameHeader) (p : Bytes)
    → (fills c ≡ false) ⊎ (is_empty p ≡ false)
    → from_header_and_payload now c h p ≡ ok (new c h.session_id h.seq_num p)
unfolding from_header_and_payload new_keepalive new_proxy_connect new_proxy_data new_proxy_close
    new_speedtest_req new_speedtest_data new_multihop_forward
from_header_kept now keepalive h p k = ground arith
from_header_kept now c h p k = ground arith

raw_of : {xs ys : Bytes} → ok xs ≡ ok ys → ys ≡ xs
raw_of e = cc

-- The frame in the buffer, its header known.
parse_frame-split :
    (now : ℕ) (h : FrameHeader) (head payload rest : Bytes)
    → length head ≡ 20
    → unpack (head ++ (payload ++ rest)) ≡ ok h
    → h.payload_len ≡ length payload
    → parse_frame now (head ++ (payload ++ rest))
      ≡ from_header_and_payload now (frame_type h.msg_type) h payload
unfolding parse_frame
parse_frame-split now h head payload rest l u e =
    let size : length (head ++ (payload ++ rest)) ≡ 20 + length payload + length rest =
      omega (arith, length-append head (payload ++ rest), length-append payload rest) in
    let count : 20 + length payload - 20 ≡ length payload = omega arith in
    rw (
      u,
      e,
      le→ltb (length (head ++ (payload ++ rest))) 20 (omega (arith, size)),
      le→ltb (length (head ++ (payload ++ rest))) (20 + length payload) (omega (arith, size)),
      count,
      drop-append 20 head (payload ++ rest) l,
      take-append (length payload) payload rest refl,
    )

-- A typed frame that serialises is parsed back, whatever follows it in the buffer.
pub parse_frame-to_bytes :
    (now : ℕ) (f : ShinFrame) (raw rest : Bytes)
    → IsTyped f
    → to_bytes f ≡ ok raw
    → parse_frame now (raw ++ rest) ≡ ok f
unfolding to_bytes
parse_frame-to_bytes now f raw rest t e =
    let (head, packed, joined) = >>=-eq-ok (pack (header f)) (λ r. ok (r ++ f.payload)) e in
    let (fits, laid) = pack_inv (header f) head packed in
    let whole : raw ++ rest ≡ head ++ (f.payload ++ rest) =
      ap (λ (x : Bytes). x ++ rest) (raw_of joined) ∙ append_assoc head f.payload rest in
    let class : frame_type f.msg_type ≡ f.class =
      ap frame_type t.type_of_class ∙ frame_type-class_msg_type f.class in
    let made : new f.class f.session_id f.seq_num f.payload ≡ f =
      ap (λ (m : ℕ). record f { msg_type = m }) (sym t.type_of_class) in
    rw whole (
      parse_frame-split now (header f) head f.payload rest (rw laid (length-layout (header f)))
        (rw laid (unpack-layout (header f) (f.payload ++ rest) fits refl)) refl
      ∙ rw class (from_header_kept now f.class (header f) f.payload t.not_filled ∙ ap ok made))

is_empty-false : (xs : Bytes) → 0 < length xs → is_empty xs ≡ false
is_empty-false [] h = absurd (omega arith)
is_empty-false (x ∷ xs) h = refl

-- What `parse_frame` has seen when it returns a frame.
pub parse_frame-cases :
    (now : ℕ) (f : ShinFrame) (raw : Bytes) (h : FrameHeader)
    → unpack raw ≡ ok h
    → parse_frame now raw ≡ ok f
    → (20 + h.payload_len ≤ length raw)
      × (from_header_and_payload now (frame_type h.msg_type) h (slice 20 (20 + h.payload_len) raw)
          ≡ ok f)
unfolding parse_frame
parse_frame-cases now f raw h u e = ground arith

frame_of : {f g : ShinFrame} {r : Result ShinFrame} → r ≡ ok f → r ≡ ok g → f ≡ g
frame_of p q = cc

-- A buffer of bytes that parses, with a known type and a payload in its header, starts with what
-- the frame serialises to.
pub to_bytes-parse_frame :
    (now : ℕ) (f : ShinFrame) (raw : Bytes) (h : FrameHeader)
    → IsBytes raw
    → unpack raw ≡ ok h
    → frame_type h.msg_type ≢ shin_frame
    → 0 < h.payload_len
    → parse_frame now raw ≡ ok f
    → (start : Bytes) × (rest : Bytes) × (to_bytes f ≡ ok start) × (raw ≡ start ++ rest)
unfolding to_bytes
to_bytes-parse_frame now f raw h b u k p e =
    let (enough, made) = parse_frame-cases now f raw h u e in
    let (fits, version, long, whole) = unpack_inv raw h b u in
    let n = 20 + h.payload_len - 20 in
    let body = slice 20 (20 + h.payload_len) raw in
    let rest = drop n (drop 20 raw) in
    let size : length body ≡ h.payload_len =
      length-take_of_le n (drop 20 raw) (omega (arith, length-drop 20 raw, enough)) ∙ omega arith in
    let is_f : new (frame_type h.msg_type) h.session_id h.seq_num body ≡ f =
      frame_of
        (from_header_kept now (frame_type h.msg_type) h body
          (inr (is_empty-false body (omega (arith, size)))))
        made in
    let same : header f ≡ h =
      rw (← is_f) (ground (arith, class_msg_type-frame_type h.msg_type k, version, size)) in
    let payload : f.payload ≡ body = ap (λ (x : ShinFrame). x.payload) (sym is_f) in
    (
      layout h ++ body,
      rest,
      rw (same, payload, pack-layout h fits),
      sym whole
          ∙ ap (λ (x : Bytes). layout h ++ x) (sym (take-append-drop n (drop 20 raw)))
          ∙ sym (append_assoc (layout h) body rest),
    )
