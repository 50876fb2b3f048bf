-- ===== src/Tunnel/MultiHop/Onion.antt =====
-- A packet on its way through both hops.
use shin_vpn.Prelude.{
  ℕ, ◌+◌, Bytes, [], ◌∷◌, ◌++◌, false, none, some, Result, ok, err, is_empty, length, ◌≡◌, refl,
  sym, ap, ◌∙◌, inl, inr, >>=-eq-ok,
}
use mathlib.Core.List.{append-nil}
use shin_vpn.Prelude.Utf8.{Text}
use shin_vpn.Prelude.Struct.{be, be-one}
use shin_vpn.Protocol.Frames.{data_packet, ShinFrame, new, to_bytes}
use shin_vpn.Protocol.Frames.MultiHopForward.{
  new_multihop_forward, multihop_payload, next_host, next_port, inner_frame_data,
}
use shin_vpn.Protocol.Parse.{parse_frame}
use shin_vpn.Protocol.Parse.Roundtrip.{IsTyped, parse_frame-to_bytes}
use shin_vpn.Protocol.Payloads.{payload_of, multihop_payload_inv, multihop_fields}
use shin_vpn.Crypto.Replay.Window.{spent}
use shin_vpn.Crypto.Aead.{Aead}
use shin_vpn.Crypto.Cipher.{ShinCipher, encrypt, decrypt}
use shin_vpn.Crypto.Cipher.Channel.{SharesKey, encrypt_inv, decrypt-encrypt}
use shin_vpn.Tunnel.MultiHop.{
  MultiHopTunnel, forwarded, encapsulate_packet, decapsulate_packet, peel,
}

parse_frame_whole :
    (now : ℕ) (f : ShinFrame) (raw : Bytes)
    → IsTyped f
    → to_bytes f ≡ ok raw
    → parse_frame now raw ≡ ok f
parse_frame_whole now f raw t e =
    ap (λ (x : Bytes). parse_frame now x) (sym (append-nil raw))
    ∙ parse_frame-to_bytes now f raw [] t e

forward-IsTyped :
    (session_id seq_num port : ℕ) (host : Text) (inner : Bytes) (f : ShinFrame)
    → new_multihop_forward session_id seq_num host port inner [] ≡ ok f
    → IsTyped f
unfolding new_multihop_forward
forward-IsTyped session_id seq_num port host inner f e =
    let (p, built, made) = >>=-eq-ok (multihop_payload host port inner) _ e in
    let (hb, encoded, q, n, is) = multihop_payload_inv port host inner p built in
    let starts : f.payload ≡ length hb ∷ (hb ++ (be 2 port ++ inner)) =
      payload_of made
      ∙ is
      ∙ ap (λ (x : Bytes). x ++ (hb ++ (be 2 port ++ inner))) (be-one (length hb) n) in
    record { type_of_class = cc; not_filled = inr (ap is_empty starts) }

forwarded_inv :
    (t : MultiHopTunnel) (seq : ℕ) (ct raw : Bytes)
    → forwarded t seq ct ≡ ok raw
    → (inner : Bytes) × (f : ShinFrame) × (to_bytes (new data_packet t.exit_session_id seq ct)
        ≡ ok inner)
      × (new_multihop_forward t.entry_session_id 0 t.exit_endpoint.0 t.exit_endpoint.1 inner []
          ≡ ok f)
      × (to_bytes f ≡ ok raw)
unfolding forwarded
forwarded_inv t seq ct raw e =
    let (inner, first, rest) =
      >>=-eq-ok (to_bytes (new data_packet t.exit_session_id seq ct)) _ e in
    let (f, second, third) =
      >>=-eq-ok
        (new_multihop_forward t.entry_session_id 0 t.exit_endpoint.0 t.exit_endpoint.1 inner [])
        to_bytes rest in
    (inner, f, first, second, third)

module _ (aead : Aead) where
  encapsulate_packet_inv :
      (t t' : MultiHopTunnel) (packet raw : Bytes)
      → encapsulate_packet aead packet t ≡ (t', ok raw)
      → (seq : ℕ) × (ct : Bytes) × ((encrypt aead t.exit_cipher packet none).1 ≡ ok (seq, ct))
        × (forwarded t seq ct ≡ ok raw)
  unfolding encapsulate_packet forwarded
  encapsulate_packet_inv t t' packet raw e =
      by_encrypt (encrypt aead t.exit_cipher packet none) refl
    where
      by_encrypt :
          (r : ShinCipher × Result (ℕ × Bytes))
          → encrypt aead t.exit_cipher packet none ≡ r
          → (seq : ℕ) × (ct : Bytes) × ((encrypt aead t.exit_cipher packet none).1 ≡ ok (seq, ct))
            × (forwarded t seq ct ≡ ok raw)
      by_encrypt (c, ok (seq, ct)) r = (seq, ct, ap (λ x. x.1) r, ap (λ x. x.1) (rw r at e))
      by_encrypt (c, err x) r = let failed = rw r at e in absurd (cc)

  decapsulate_packet-data :
      (now seq : ℕ) (t : MultiHopTunnel) (raw ct p : Bytes)
      → parse_frame now raw ≡ ok (new data_packet t.exit_session_id seq ct)
      → (decrypt aead t.exit_cipher seq ct none).1 ≡ ok p
      → (decapsulate_packet aead now raw t).1 ≡ some p
  unfolding decapsulate_packet peel
  decapsulate_packet-data now seq t raw ct p e d = rw (e, d) refl

  -- A packet that is encapsulated reaches the exit as it was: the forward frame parses, names the
  -- exit as the next hop, and holds a frame that an exit with the same key and session, which has
  -- not spent the number, opens to the packet.
  pub decapsulate_packet-encapsulate_packet :
      (now : ℕ) (t t' exit : MultiHopTunnel) (packet raw : Bytes)
      → encapsulate_packet aead packet t ≡ (t', ok raw)
      → SharesKey t.exit_cipher exit.exit_cipher
      → exit.exit_session_id ≡ t.exit_session_id
      → spent exit.exit_cipher.rx_replay (t.exit_cipher.tx_seq + 1) ≡ false
      → (f : ShinFrame) × (inner : Bytes) × (parse_frame now raw ≡ ok f)
        × (next_host f ≡ ok t.exit_endpoint.0)
        × (next_port f ≡ ok t.exit_endpoint.1)
        × (inner_frame_data f ≡ ok inner)
        × ((decapsulate_packet aead now inner exit).1 ≡ some packet)
  decapsulate_packet-encapsulate_packet now t t' exit packet raw e k same fresh =
      let (seq, ct, sealed, wrapped) = encapsulate_packet_inv t t' packet raw e in
      let (inner, f, inside, outside, sent) = forwarded_inv t seq ct raw wrapped in
      let (n, nonce, number, is) = encrypt_inv aead t.exit_cipher packet ct none seq sealed in
      let (host, port, held) =
        multihop_fields t.entry_session_id 0 t.exit_endpoint.1 t.exit_endpoint.0 inner f outside in
      let data_frame = new data_packet t.exit_session_id seq ct in
      let parsed : parse_frame now inner ≡ ok (new data_packet exit.exit_session_id seq ct) =
        parse_frame_whole now data_frame inner
          (record { type_of_class = refl; not_filled = inl refl }) inside
        ∙ ap (λ (x : ℕ). ok (new data_packet x seq ct)) (sym same) in
      let opened =
        decrypt-encrypt aead t.exit_cipher exit.exit_cipher packet ct none seq k sealed
          (rw number fresh) in
      (
        f,
        inner,
        parse_frame_whole now f raw
            (forward-IsTyped t.entry_session_id 0 t.exit_endpoint.1 t.exit_endpoint.0 inner f
              outside)
            sent,
        host,
        port,
        held,
        decapsulate_packet-data now seq exit inner ct packet parsed opened,
      )
