-- ===== src/Tests/Client.antt =====
-- A connected client on small inputs.
use shin_vpn.Prelude.{
  arith, List, Bytes, [], ◌∷◌, true, false, some, ok, err, permission_error, replicate, ◌≡◌, refl,
}
use shin_vpn.Prelude.Struct.{be, le, pack_be, pack_le}
use shin_vpn.Crypto.Replay.{init}
use shin_vpn.Prelude.Assoc.{lookup}
use shin_vpn.Crypto.Cipher.{ShinCipher, encrypt, build_nonce}
use shin_vpn.Crypto.Handshake.Agreement.{fresh_cipher}
use shin_vpn.Protocol.Header.{pack}
use shin_vpn.Protocol.Frames.{to_bytes}
use shin_vpn.Crypto.Handshake.{initiator, new_handshake}
use shin_vpn.Client.{
  ClientConfig, ClientState, connected, authenticating, result, ShinVpnClient, SetUp, new_client,
  send_raw, send_disconnect, in_state, set_state, handshake_awaited, established, guarded_up,
  shielded_up, connect_failed, disconnect_client,
}
use shin_vpn.Client.Packets.{send_sealed, async_send_proxy}
use shin_vpn.Client.Events.{Event, awaited, transport_made, local_data, lost, reconnect_due}
use shin_vpn.Client.Protection.{protected}
use shin_vpn.Client.Relaying.{send_all, Arrived, handle_all-send_all}
use shin_vpn.Server.Session.{Serving}
use shin_vpn.Server.Daemon.{new_session}
use shin_vpn.Tests.Daemon.{session}
use shin_vpn.Tests.Toys.{toy_aead}

abbrev config : ClientConfig
config = record {
  static_key = 3 ∷ [];
  server_pub_key = some (7 ∷ replicate 31 0);
  enable_system_proxy = true;
  enable_killswitch = true;
  enable_dns_shield = false;
}

abbrev pub tx : ShinCipher
tx = fresh_cipher (replicate 32 2) 5 true

abbrev pub client : ShinVpnClient
client = record (new_client config) {
  state = connected;
  session_id = 5;
  tx_cipher = some tx;
  has_transport = true;
  killswitch_on = true;
}

abbrev serving : Serving
serving = record { session = session; sent = []; tun_packets = []; opening = [] }

-- Connection 4 is open, and 7 was written to it.
abbrev pub streaming : Serving
streaming = record serving {
  session = record session {
    proxy_streams = (4, record { written = 7 ∷ []; is_closing = false }) ∷ [];
  };
}

abbrev chunks : List Bytes
chunks = (8 ∷ 9 ∷ []) ∷ (10 ∷ []) ∷ []

relayed_example :
    Arrived toy_aead 0 4
      (7 ∷ 8 ∷ 9 ∷ 10 ∷ [])
      client
      (send_all toy_aead 4 chunks client).0
      streaming
relayed_example =
    handle_all-send_all toy_aead 0 4 chunks (7 ∷ []) tx client (send_all toy_aead 4 chunks client).0
      streaming refl refl
      (unfold send_all async_send_proxy send_sealed new_client encrypt build_nonce pack_le pack_be
          le be to_bytes pack send_raw in
        refl)
      (unfold new_session init in
        record { shares = record { key = refl; session = refl }; behind = omega arith })
      (unfold lookup in refl)

abbrev guarded_client : ShinVpnClient
guarded_client = record client { running = true; proxy_running = true }

abbrev all_on : SetUp
all_on = record {
  proxy_start = ok tt;
  system_proxy_enabled = true;
  killswitch_enabled = ok true;
  dns_shield_enabled = true;
}

abbrev happened : List Event
happened =
    local_data 4 2 [] 0 (8 ∷ [])
    ∷ lost
    ∷ reconnect_due
    ∷ transport_made (replicate 32 1) (replicate 8 2) (replicate 12 3)
    ∷ awaited all_on
    ∷ []

-- A client whose answer came.
abbrev answered : ShinVpnClient
answered = record guarded_client {
  state = authenticating;
  handshake = some (new_handshake initiator (3 ∷ []) (some (7 ∷ replicate 31 0)) (replicate 32 1));
  handshake_future = result [];
}

-- With all calls answered yes it is connected and guarded.
all_on_test :
    (in_state connected (handshake_awaited all_on answered).state ≡ true)
    × (protected (handshake_awaited all_on answered) ≡ true)
unfolding new_client handshake_awaited established guarded_up shielded_up set_state new_handshake
all_on_test = (refl, refl)

-- The kill switch answers that it is not on: the client is connected all the same.
switch_off_test :
    (in_state connected
        (handshake_awaited (record all_on { killswitch_enabled = ok false }) answered).state
      ≡ true)
    × ((handshake_awaited (record all_on { killswitch_enabled = ok false }) answered).killswitch_on
        ≡ false)
unfolding new_client handshake_awaited established guarded_up shielded_up set_state new_handshake
switch_off_test = (refl, refl)

-- The local proxy may not take its port: the attempt ends disconnected.
port_refused_test :
    in_state ClientState.disconnected
      (handshake_awaited (record all_on { proxy_start = err permission_error }) answered).state
    ≡ true
unfolding new_client handshake_awaited established connect_failed disconnect_client send_disconnect
    set_state new_handshake to_bytes pack pack_be be send_raw
port_refused_test = refl
