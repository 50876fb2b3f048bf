-- ===== src/Client/Events.antt =====
-- Everything that can happen to a client, in any order: the parts of `connect` between its awaits,
-- packets, calls of the local proxy, a lost connection, and a disconnection.
use shin_vpn.Prelude.{ℕ, Bytes, List, [], ◌∷◌}
use shin_vpn.Prelude.Utf8.{Text}
use shin_vpn.Crypto.Aead.{Aead}
use shin_vpn.Crypto.Primitives.{Primitives}
use shin_vpn.Client.{
  ShinVpnClient, SetUp, disconnect_client, connect_start, transport_ready, handshake_awaited,
  on_connection_lost, reconnect, send_keepalive,
}
use shin_vpn.Client.Packets.{
  send_proxy_frame_from_local, on_packet_received, send_upload, request_download,
}

pub data Event : Type 0 where
  connect_called reconnect_due lost disconnect_called : Event
  awaited : SetUp → Event
  transport_made : Bytes → Bytes → Bytes → Event
  packet : ℕ → Bytes → Event
  local_data : ℕ → ℕ → Text → ℕ → Bytes → Event
  ping : ℕ → Event
  upload download : ℕ → Event

module _ (aead : Aead) (P : Primitives) where
  unfoldable pub step : Event → ShinVpnClient → ShinVpnClient
  step connect_called c = (connect_start c).0
  step reconnect_due c = (reconnect c).0
  step lost c = on_connection_lost c
  step (awaited su) c = handshake_awaited su c
  step disconnect_called c = disconnect_client c
  step (transport_made ephemeral_key random_id timestamp_nonce) c =
      transport_ready P ephemeral_key random_id timestamp_nonce c
  step (packet now raw_data) c = on_packet_received aead P now raw_data c
  step (local_data conn_id action host port data_) c =
      send_proxy_frame_from_local aead conn_id action host port data_ c
  step (ping now) c = send_keepalive now c
  step (upload probe_id) c = (send_upload aead probe_id 0 150 c).0
  step (download probe_id) c = (request_download aead probe_id c).0

  unfoldable pub run : List Event → ShinVpnClient → ShinVpnClient
  run [] c = c
  run (e ∷ es) c = run es (step e c)
