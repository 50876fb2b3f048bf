-- ===== src/Client/Protection.antt =====
-- While a client is connected, what its configuration asks for is switched on.
use shin_vpn.Prelude.{
  ℕ, Bytes, ◌++◌, Bool, true, false, not, ◌&&◌, ◌||◌, if◌then◌else◌, Option, none, some, Result,
  Error, ok, err, ◌==◌, ◌≡◌, refl, ◌∙◌,
}
use shin_vpn.Prelude.Exec.{Exec, continue, lift}
use shin_vpn.Prelude.Struct.{pack_be}
use shin_vpn.Prelude.Utf8.{Text}
use shin_vpn.Protocol.Constants.{msg_proxy_connect, msg_proxy_data, msg_proxy_close}
use shin_vpn.Protocol.Frames.{shin_frame, new, with_type, to_bytes}
use shin_vpn.Protocol.Frames.ProxyConnect.{proxy_connect_payload}
use shin_vpn.Crypto.Aead.{Aead}
use shin_vpn.Crypto.Cipher.{ShinCipher, encrypt}
use shin_vpn.Client.{ShinVpnClient, connected, in_state, is_some, send_raw}
use shin_vpn.Client.Packets.{send_sealed, async_send_proxy, send_proxy_frame_from_local}

-- The local proxy runs, and the kill switch and the DNS shield are on if they are asked for.
abbrev pub guarded : ShinVpnClient → Bool
guarded c =
    c.proxy_running
    && ((not c.config.enable_killswitch || c.killswitch_on)
        && (not c.config.enable_dns_shield || c.dns_shield_on))

-- Connected only if guarded.
abbrev pub protected : ShinVpnClient → Bool
protected c = not (in_state connected c.state) || guarded c

abbrev pub Kept : ShinVpnClient → ShinVpnClient → Type 0
Kept c c' = protected c' ≡ protected c

pub Kept-continue :
    {A B : Type 0} (c : ShinVpnClient) (m : ShinVpnClient × Result A) (f : A → Exec ShinVpnClient B)
    → Kept c m.0
    → ((a : A) (c' : ShinVpnClient) → Kept c c' → Kept c (f a c').0)
    → Kept c (continue m f).0
Kept-continue c (c', ok a) f h k = k a c' h
Kept-continue c (c', err e) f h k = h

pub Kept-if :
    (c : ShinVpnClient) (b : Bool) (d e : ShinVpnClient)
    → Kept c d
    → Kept c e
    → Kept c (if b then d else e)
Kept-if c true d e hd he = hd
Kept-if c false d e hd he = he

module _ (aead : Aead) where
  pub Kept-send_sealed : (t : ℕ) (p : Bytes) (c : ShinVpnClient) → Kept c (send_sealed aead t p c).0
  unfolding send_sealed send_raw
  Kept-send_sealed t p c = by_cipher c.tx_cipher
    where
      by_raw :
          (c' : ShinVpnClient) (r : Result Bytes)
          → Kept c'
              (elim r as (λ _. ShinVpnClient × Result (Unit {0})) [
                | err e ↦ (c', err e)
                | ok raw ↦ (send_raw raw c', ok tt)
              ]).0
      by_raw c' (err e) = refl
      by_raw c' (ok raw) = refl

      by_seal :
          (tx : ShinCipher) (r : Result (ℕ × Bytes))
          → let c' = record c { tx_cipher = some tx } in
            Kept c'
              (elim r as (λ _. ShinVpnClient × Result (Unit {0})) [
                | err e ↦ (c', err e)
                | ok (seq, ct) ↦
                    elim (to_bytes (with_type t (new shin_frame c'.session_id seq ct))) [
                      | err e ↦ (c', err e)
                      | ok raw ↦ (send_raw raw c', ok tt)
                    ]
              ]).0
      by_seal tx (err e) = refl
      by_seal tx (ok (seq, ct)) =
          by_raw (record c { tx_cipher = some tx })
            (to_bytes (with_type t (new shin_frame c.session_id seq ct)))

      by_cipher :
          (o : Option ShinCipher)
          → Kept c
              (elim o as (λ _. ShinVpnClient × Result (Unit {0})) [
                | none ↦ (c, err Error.type_error)
                | some tx ↦
                    let sealed = encrypt aead tx p none in
                    let c' = record c { tx_cipher = some sealed.0 } in
                    elim sealed.1 [
                      | err e ↦ (c', err e)
                      | ok (seq, ct) ↦
                          elim (to_bytes (with_type t (new shin_frame c'.session_id seq ct))) [
                            | err e ↦ (c', err e)
                            | ok raw ↦ (send_raw raw c', ok tt)
                          ]
                    ]
              ]).0
      by_cipher none = refl
      by_cipher (some tx) = by_seal (encrypt aead tx p none).0 (encrypt aead tx p none).1

  Kept-async_send_proxy :
      (conn_id action : ℕ) (host : Text) (port : ℕ) (data_ : Bytes) (c : ShinVpnClient)
      → Kept c (async_send_proxy aead conn_id action host port data_ c).0
  unfolding async_send_proxy
  Kept-async_send_proxy conn_id action host port data_ c =
      by_action (action == 1) (action == 2) (action == 3)
    where
      by_connect :
          (r : Result Bytes)
          → Kept c (continue (lift r c) (λ p. send_sealed aead msg_proxy_connect p)).0
      by_connect r =
          Kept-continue c (lift r c) (λ p. send_sealed aead msg_proxy_connect p) refl
            (λ p c' h. Kept-send_sealed msg_proxy_connect p c' ∙ h)

      by_id :
          (t : ℕ) (rest : Bytes → Bytes) (r : Result Bytes)
          → Kept c (continue (lift r c) (λ id. send_sealed aead t (rest id))).0
      by_id t rest r =
          Kept-continue c (lift r c) (λ id. send_sealed aead t (rest id)) refl
            (λ id c' h. Kept-send_sealed t (rest id) c' ∙ h)

      by_action :
          (a1 a2 a3 : Bool)
          → Kept c
              (if◌then◌else◌ {A = Exec ShinVpnClient (Unit {0})} a1
                (λ s.
                  continue
                    (lift (proxy_connect_payload conn_id host port) s)
                    (λ p. send_sealed aead msg_proxy_connect p))
                (if◌then◌else◌ {A = Exec ShinVpnClient (Unit {0})} a2
                  (λ s.
                    continue
                      (lift (pack_be 4 conn_id) s)
                      (λ id. send_sealed aead msg_proxy_data (id ++ data_)))
                  (if◌then◌else◌ {A = Exec ShinVpnClient (Unit {0})} a3
                    (λ s.
                      continue
                        (lift (pack_be 4 conn_id) s)
                        (λ id. send_sealed aead msg_proxy_close id))
                    (λ s. (s, ok tt))))
                c).0
      by_action true a2 a3 = by_connect (proxy_connect_payload conn_id host port)
      by_action false true a3 = by_id msg_proxy_data (λ id. id ++ data_) (pack_be 4 conn_id)
      by_action false false true = by_id msg_proxy_close (λ id. id) (pack_be 4 conn_id)
      by_action false false false = refl

  pub Kept-from_local :
      (conn_id action : ℕ) (host : Text) (port : ℕ) (data_ : Bytes) (c : ShinVpnClient)
      → Kept c (send_proxy_frame_from_local aead conn_id action host port data_ c)
  unfolding send_proxy_frame_from_local
  Kept-from_local conn_id action host port data_ c =
      Kept-if c (is_some c.tx_cipher && in_state connected c.state)
        (async_send_proxy aead conn_id action host port data_ c).0 c
        (Kept-async_send_proxy conn_id action host port data_ c) refl
