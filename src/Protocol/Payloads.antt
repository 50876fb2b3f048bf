-- ===== src/Protocol/Payloads.antt =====
-- The fields that a client writes into a frame, read back by the accessors.
use mathlib.Core.List.{append_assoc}
use shin_vpn.Prelude.{
  ℕ, ◌+◌, ◌-◌, ◌<◌, ◌^◌, Bytes, [], ◌∷◌, ◌++◌, ok, length, take, drop, ◌≡◌, refl, arith,
  take-append, drop-append, ap, ◌∙◌, length-append, >>=-eq-ok, take_of_length-le, suc,
}
use shin_vpn.Prelude.Struct.{
  be, value_be, pack_be, be-one, unpack_be, unpack_be-be, length-be, value_be-be, unpack_be-ok,
}
use shin_vpn.Prelude.Utf8.{Text, encode, decode-encode, decode_replace-encode}
use shin_vpn.Protocol.Frames.{ShinFrame}
use shin_vpn.Protocol.Frames.ProxyConnect
use shin_vpn.Protocol.Frames.ProxyConnect.{new_proxy_connect, proxy_connect_payload}
use shin_vpn.Protocol.Frames.MultiHopForward
use shin_vpn.Protocol.Frames.MultiHopForward.{new_multihop_forward, multihop_payload}

pub payload_of : {f g : ShinFrame} → ok g ≡ ok f → f.payload ≡ g.payload
payload_of e = cc

-- The payload of a connect frame: four bytes, two, two, and the host.
proxy_connect_payload_inv :
    (conn_id port : ℕ) (host : Text) (p : Bytes)
    → proxy_connect_payload conn_id host port ≡ ok p
    → (host_bytes : Bytes) × (encode host ≡ ok host_bytes)
      × (conn_id < 2 ^ 32)
      × (port < 2 ^ 16)
      × (length host_bytes < 2 ^ 16)
      × (p ≡ be 4 conn_id ++ (be 2 port ++ (be 2 (length host_bytes) ++ host_bytes)))
unfolding proxy_connect_payload pack_be
proxy_connect_payload_inv conn_id port host p e = ground arith

pub multihop_payload_inv :
    (port : ℕ) (host : Text) (inner p : Bytes)
    → multihop_payload host port inner ≡ ok p
    → (host_bytes : Bytes) × (encode host ≡ ok host_bytes)
      × (port < 2 ^ 16)
      × (length host_bytes < 2 ^ 8)
      × (p ≡ be 1 (length host_bytes) ++ (host_bytes ++ (be 2 port ++ inner)))
unfolding multihop_payload pack_be
multihop_payload_inv port host inner p e = ground arith

module _ (a b r : Bytes) (i j : ℕ) (p : length a ≡ i) (q : length b ≡ j) where
  take-two : take (i + j) (a ++ (b ++ r)) ≡ a ++ b
  take-two =
      rw (← append_assoc a b r) (take-append (i + j) (a ++ b) r (omega (arith, length-append a b)))

  drop-two : drop (i + j) (a ++ (b ++ r)) ≡ r
  drop-two =
      rw (← append_assoc a b r) (drop-append (i + j) (a ++ b) r (omega (arith, length-append a b)))

module _ (a b c r : Bytes) (i j k : ℕ) (p : length a ≡ i) (q : length b ≡ j)
    (s : length c ≡ k) where
  drop-three : drop (i + j + k) (a ++ (b ++ (c ++ r))) ≡ r
  drop-three =
      rw (← append_assoc b c r, ← append_assoc a (b ++ c) r)
        (drop-append (i + j + k) (a ++ (b ++ c)) r
          (omega (arith, length-append a (b ++ c), length-append b c)))

proxy_connect_read :
    (f : ShinFrame) (conn_id port : ℕ) (host : Text) (hb : Bytes)
    → encode host ≡ ok hb
    → conn_id < 2 ^ 32
    → port < 2 ^ 16
    → length hb < 2 ^ 16
    → f.payload ≡ be 4 conn_id ++ (be 2 port ++ (be 2 (length hb) ++ hb))
    → (ProxyConnect.conn_id f ≡ ok conn_id)
      × (ProxyConnect.port f ≡ ok port)
      × (ProxyConnect.host f ≡ ok host)
unfolding ProxyConnect.conn_id ProxyConnect.port ProxyConnect.host
proxy_connect_read f conn_id port host hb e c p n is =
    let a = be 4 conn_id in
    let b = be 2 port in
    let l = be 2 (length hb) in
    let la = length-be 4 conn_id in
    let lb = length-be 2 port in
    let ll = length-be 2 (length hb) in
    let six : take 6 (a ++ (b ++ (l ++ hb))) ≡ a ++ b = take-two a b (l ++ hb) 4 2 la lb in
    let after6 : drop 6 (a ++ (b ++ (l ++ hb))) ≡ l ++ hb = drop-two a b (l ++ hb) 4 2 la lb in
    let after8 : drop 8 (a ++ (b ++ (l ++ hb))) ≡ hb = drop-three a b l hb 4 2 2 la lb ll in
    let whole : unpack_be 6 (a ++ b) ≡ ok (value_be (a ++ b)) =
      unpack_be-ok 6 (a ++ b) (omega (arith, length-append a b, la, lb)) in
    let count : 8 + length hb - 8 ≡ length hb = omega arith in
    (
      rw (is, six, whole, take-append 4 a b la, value_be-be 4 conn_id c),
      rw (is, six, whole, drop-append 4 a b la, value_be-be 2 port p),
      rw
          (
            is,
            after6,
            take-append 2 l hb ll,
            unpack_be-be 2 (length hb) n,
            count,
            after8,
            take_of_length-le (length hb) hb (omega arith),
          )
          (decode-encode host hb e),
    )

-- What a connect frame was built from, its accessors return: the connection, the port and the host.
pub proxy_connect_fields :
    (session_id seq_num conn_id port : ℕ) (host : Text) (f : ShinFrame)
    → new_proxy_connect session_id seq_num conn_id host port [] ≡ ok f
    → (ProxyConnect.conn_id f ≡ ok conn_id)
      × (ProxyConnect.port f ≡ ok port)
      × (ProxyConnect.host f ≡ ok host)
unfolding new_proxy_connect
proxy_connect_fields session_id seq_num conn_id port host f e =
    let (p, built, made) = >>=-eq-ok (proxy_connect_payload conn_id host port) _ e in
    let (hb, encoded, c, q, n, is) = proxy_connect_payload_inv conn_id port host p built in
    proxy_connect_read f conn_id port host hb encoded c q n (payload_of made ∙ is)

multihop_read :
    (f : ShinFrame) (port : ℕ) (host : Text) (hb inner : Bytes)
    → encode host ≡ ok hb
    → port < 2 ^ 16
    → length hb < 2 ^ 8
    → f.payload ≡ be 1 (length hb) ++ (hb ++ (be 2 port ++ inner))
    → (MultiHopForward.next_host f ≡ ok host)
      × (MultiHopForward.next_port f ≡ ok port)
      × (MultiHopForward.inner_frame_data f ≡ ok inner)
unfolding MultiHopForward.next_host MultiHopForward.next_port MultiHopForward.inner_frame_data
multihop_read f port host hb inner e p n is =
    let len = length hb in
    let count1 : 1 + len - 1 ≡ len = omega arith in
    let count2 : 3 + len - (1 + len) ≡ 2 = omega arith in
    let one : 1 + len ≡ suc len = omega arith in
    let three : 3 + len ≡ suc (len + 2) = omega arith in
    let b = be 2 port in
    let lb = length-be 2 port in
    let head : f.payload ≡ len ∷ (hb ++ (b ++ inner)) =
      is ∙ ap (λ (x : Bytes). x ++ (hb ++ (b ++ inner))) (be-one len n) in
    (
      rw (head, count1, take-append len hb (b ++ inner) refl)
          (ap (λ (t : Text). ok t) (decode_replace-encode host hb e)),
      rw (head, count2, one, drop-append len hb (b ++ inner) refl, take-append 2 b inner lb)
          (unpack_be-be 2 port p),
      rw (head, three, drop-two hb b inner len 2 refl lb),
    )

-- What a multi-hop frame was built from, its accessors return: the next host, its port and the
-- frame inside.
pub multihop_fields :
    (session_id seq_num port : ℕ) (host : Text) (inner : Bytes) (f : ShinFrame)
    → new_multihop_forward session_id seq_num host port inner [] ≡ ok f
    → (MultiHopForward.next_host f ≡ ok host)
      × (MultiHopForward.next_port f ≡ ok port)
      × (MultiHopForward.inner_frame_data f ≡ ok inner)
unfolding new_multihop_forward
multihop_fields session_id seq_num port host inner f e =
    let (p, built, made) = >>=-eq-ok (multihop_payload host port inner) _ e in
    let (hb, encoded, q, n, is) = multihop_payload_inv port host inner p built in
    multihop_read f port host hb inner encoded q n (payload_of made ∙ is)
