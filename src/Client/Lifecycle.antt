-- ===== src/Client/Lifecycle.antt =====
-- The states of a connection, over everything that can happen to a client.
use shin_vpn.Prelude.{
  Bytes, [], Bool, true, false, if◌then◌else◌, Option, none, some, Result, ok, err, ◌==◌, ◌≡◌, refl,
}
use shin_vpn.Protocol.Frames.{disconnect, new, to_bytes}
use shin_vpn.Crypto.Cipher.{ShinCipher}
use shin_vpn.Client.{
  ShinVpnClient, ClientState, error, send_disconnect, send_raw, connect_failed, disconnect_client,
  set_state,
}

-- The frame that says goodbye changes only what was sent.
send_disconnect-running : (c : ShinVpnClient) → (send_disconnect c).running ≡ c.running
unfolding send_disconnect send_raw
send_disconnect-running c = by_cipher c.tx_cipher
  where
    by_raw :
        (r : Result Bytes)
        → (elim r as (λ _. ShinVpnClient) [ ok raw ↦ send_raw raw c | err e ↦ c ]).running
          ≡ c.running
    by_raw (ok raw) = refl
    by_raw (err e) = refl

    by_id :
        (b : Bool) (r : Result Bytes)
        → (if b
            then c
            else elim r as (λ _. ShinVpnClient) [ ok raw ↦ send_raw raw c | err e ↦ c ]).running
          ≡ c.running
    by_id true r = refl
    by_id false r = by_raw r

    by_cipher :
        (o : Option ShinCipher)
        → (elim o as (λ _. ShinVpnClient) [
          | none ↦ c
          | some tx ↦
              if c.session_id == 0
              then c
              else elim (to_bytes (new disconnect c.session_id 1 [])) as (λ _. ShinVpnClient) [
                | ok raw ↦ send_raw raw c
                | err e ↦ c
              ]
        ]).running
          ≡ c.running
    by_cipher none = refl
    by_cipher (some tx) = by_id (c.session_id == 0) (to_bytes (new disconnect c.session_id 1 []))

-- Whatever state a failed `connect` is in, it ends disconnected, with the transport, the local
-- proxy, the kill switch and the DNS shield off and the client not running: the state ERROR that
-- it sets first does not last.
pub connect_failed-state :
    (c : ShinVpnClient)
    → ((connect_failed c).state ≡ ClientState.disconnected)
      × ((connect_failed c).running ≡ false)
      × ((connect_failed c).has_transport ≡ false)
      × ((connect_failed c).proxy_running ≡ false)
      × ((connect_failed c).killswitch_on ≡ false)
      × ((connect_failed c).dns_shield_on ≡ false)
unfolding connect_failed disconnect_client set_state
connect_failed-state c = (
  refl,
  send_disconnect-running (record c { state = error; running = false }),
  refl,
  refl,
  refl,
  refl,
)
