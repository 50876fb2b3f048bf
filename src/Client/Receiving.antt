-- ===== src/Client/Receiving.antt =====
-- The packets that arrive leave a client as protected as it was.
use shin_vpn.Prelude.{
  length, ◌+◌, ℕ, Bytes, Bool, true, false, ◌&&◌, if◌then◌else◌, Option, none, some, Result, Error,
  ok, err, ◌==◌, take, refl,
}
use shin_vpn.Prelude.Exec.{lift}
use shin_vpn.Prelude.Struct.{unpack_be}
use shin_vpn.Protocol.Constants.{
  msg_handshake_resp, msg_speedtest_data, msg_proxy_data, msg_proxy_close,
}
use shin_vpn.Protocol.Frames.{ShinFrame}
use shin_vpn.Protocol.Parse.{parse_frame}
use shin_vpn.Crypto.Aead.{Aead}
use shin_vpn.Crypto.Primitives.{Primitives}
use shin_vpn.Crypto.Cipher.{ShinCipher, decrypt}
use shin_vpn.Crypto.Handshake.{HandshakeState, process_response}
use shin_vpn.Client.{
  ShinVpnClient, authenticating, Future, no_future, pending, result, exception, in_state, is_some,
  on_handshake_resp,
}
use shin_vpn.Client.Packets.{
  open_frame, on_proxy_data, on_proxy_close, dispatch, on_packet_received,
}
use shin_vpn.Client.Protection.{Kept, Kept-continue, Kept-if}

module _ (aead : Aead) where
  Kept-open_frame : (f : ShinFrame) (c : ShinVpnClient) → Kept c (open_frame aead f c).0
  unfolding open_frame
  Kept-open_frame f c = by_cipher c.rx_cipher
    where
      by_cipher :
          (o : Option ShinCipher)
          → Kept c
              (elim o as (λ _. ShinVpnClient × Result Bytes) [
                | none ↦ (c, err Error.type_error)
                | some rx ↦
                    let opened = decrypt aead rx f.seq_num f.payload none in
                    (record c { rx_cipher = some opened.0 }, opened.1)
              ]).0
      by_cipher none = refl
      by_cipher (some rx) = refl

  Kept-on_proxy_data : (f : ShinFrame) (c : ShinVpnClient) → Kept c (on_proxy_data aead f c).0
  unfolding on_proxy_data
  Kept-on_proxy_data f c =
      Kept-continue c (open_frame aead f c) _ (Kept-open_frame f c)
        (λ p c' h. Kept-continue c (lift (unpack_be 4 (take 4 p)) c') _ h (λ id c'' h'. h'))

  Kept-on_proxy_close : (f : ShinFrame) (c : ShinVpnClient) → Kept c (on_proxy_close aead f c).0
  unfolding on_proxy_close
  Kept-on_proxy_close f c =
      Kept-continue c (open_frame aead f c) _ (Kept-open_frame f c)
        (λ p c' h. Kept-continue c (lift (unpack_be 4 (take 4 p)) c') _ h (λ id c'' h'. h'))

  module _ (P : Primitives) where
    Kept-on_handshake_resp : (f : ShinFrame) (c : ShinVpnClient) → Kept c (on_handshake_resp P f c)
    unfolding on_handshake_resp
    Kept-on_handshake_resp f c = by_handshake c.handshake
      where
        by_future :
            (c' : ShinVpnClient) (new_future : Future) (o : Future)
            → Kept c' (elim o as (λ _. ShinVpnClient) [
              | pending ↦ record c' { handshake_future = new_future }
              | _ ↦ c'
            ])
        by_future c' n no_future = refl
        by_future c' n pending = refl
        by_future c' n (result vip) = refl
        by_future c' n (exception e) = refl

        by_handshake :
            (o : Option HandshakeState)
            → Kept c (elim o as (λ _. ShinVpnClient) [
              | none ↦ (elim c.handshake_future [
                | pending ↦ record c { handshake_future = exception Error.type_error }
                | _ ↦ c
              ])
              | some hs ↦
                  let answered = process_response P f.payload hs in
                  let c' = record c { handshake = some answered.0 } in
                  elim c'.handshake_future [
                    | pending ↦ record c' {
                      handshake_future = elim answered.1 [
                        | ok vip ↦ result vip
                        | err e ↦ exception e
                      ];
                    }
                    | _ ↦ c'
                  ]
            ])
        by_handshake none = by_future c (exception Error.type_error) c.handshake_future
        by_handshake (some hs) =
            let answered = process_response P f.payload hs in
            by_future (record c { handshake = some answered.0 })
              (elim answered.1 [ ok vip ↦ result vip | err e ↦ exception e ]) c.handshake_future

    Kept-dispatch : (f : ShinFrame) (c : ShinVpnClient) → Kept c (dispatch aead P f c)
    unfolding dispatch
    Kept-dispatch f c =
        by_type (f.msg_type == msg_handshake_resp && in_state authenticating c.state)
          (f.msg_type == msg_speedtest_data) (f.msg_type == msg_proxy_data)
          (f.msg_type == msg_proxy_close)
      where
        by_type :
            (t1 t2 t3 t4 : Bool)
            → Kept c (
                if t1
                then on_handshake_resp P f c
                else if t2
                then (if is_some c.rx_cipher then (open_frame aead f c).0 else c)
                else if t3
                then (if is_some c.rx_cipher && c.has_proxy then (on_proxy_data aead f c).0 else c)
                else if t4
                then (if is_some c.rx_cipher && c.has_proxy then (on_proxy_close aead f c).0 else c)
                else c)
        by_type true t2 t3 t4 = Kept-on_handshake_resp f c
        by_type false true t3 t4 =
            Kept-if c (is_some c.rx_cipher) (open_frame aead f c).0 c (Kept-open_frame f c) refl
        by_type false false true t4 =
            Kept-if c (is_some c.rx_cipher && c.has_proxy) (on_proxy_data aead f c).0 c
              (Kept-on_proxy_data f c) refl
        by_type false false false true =
            Kept-if c (is_some c.rx_cipher && c.has_proxy) (on_proxy_close aead f c).0 c
              (Kept-on_proxy_close f c) refl
        by_type false false false false = refl

    pub Kept-on_packet_received :
        (now : ℕ) (raw_data : Bytes) (c : ShinVpnClient)
        → Kept c (on_packet_received aead P now raw_data c)
    unfolding on_packet_received
    Kept-on_packet_received now raw_data c = by_frame (parse_frame now raw_data)
      where
        counted : ShinVpnClient
        counted = record c {
          bytes_rx = c.bytes_rx + length raw_data;
          packets_rx = c.packets_rx + 1;
        }

        by_frame :
            (r : Result ShinFrame)
            → Kept c (elim r as (λ _. ShinVpnClient) [
              | err e ↦ counted
              | ok f ↦ dispatch aead P f counted
            ])
        by_frame (err e) = refl
        by_frame (ok f) = Kept-dispatch f counted
