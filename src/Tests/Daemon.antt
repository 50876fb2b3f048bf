-- ===== src/Tests/Daemon.antt =====
-- A server, its events and its streams on small inputs.
use shin_vpn.Prelude.{List, [], ◌∷◌, true, false, some, replicate, refl}
use shin_vpn.Prelude.Utf8.{codes}
use shin_vpn.Prelude.Assoc.{lookup}
use shin_vpn.Crypto.Handshake.Agreement.{fresh_cipher}
use shin_vpn.Server.IpPool.{ipv4_network, new_pool}
use shin_vpn.Server.IpPool.Invariant.{IsValid, new_pool-IsValid}
use shin_vpn.Server.Session.{ClientSession, udp, connection_opened}
use shin_vpn.Server.Session.Streams.{Streaming, deliver_all, stream_in_order}
use shin_vpn.Server.Daemon.{ShinVpnServer, Inbound, new_session}
use shin_vpn.Server.Daemon.Leases.{
  Event, packet, janitor_round, authorize, shut_down, run, run-IsValid,
}
use shin_vpn.Tests.Toys.{toy_aead, toy_primitives}

abbrev pub arrival : Inbound
arrival = record {
  raw_data =
      83 ∷ 72 ∷ 73 ∷ 78 ∷ 1 ∷ 3 ∷ 0 ∷ 0 ∷ 0 ∷ 7 ∷ 0 ∷ 0 ∷ 0 ∷ 0 ∷ 0 ∷ 0 ∷ 0 ∷ 9 ∷ 0 ∷ 2 ∷ 65 ∷ 66
      ∷ [];
  addr = (codes "9.9.9.9", 1000);
  transport_type = udp;
  has_send_cb = false;
  now = 100;
  ephemeral_key = 11 ∷ [];
  server_nonce = replicate 32 1;
}

abbrev server : ShinVpnServer
server = record {
  static_key = 7 ∷ [];
  ip_pool = new_pool (ipv4_network 168296448 24) 168296449;
  objects = [];
  next_ref = 0;
  sessions_by_id = [];
  sessions_by_addr = [];
  sessions_by_vip = [];
  allowed_pub_keys = [];
  tun_is_open = true;
  is_running = true;
  outbox = [];
  tun_packets = [];
  opening = [];
}

abbrev events : List Event
events =
    packet arrival
    ∷ authorize (some (replicate 32 1)) (codes "peer")
    ∷ janitor_round 60 500
    ∷ shut_down
    ∷ []

run_example : IsValid (run toy_aead toy_primitives events server).ip_pool
run_example =
    run-IsValid toy_aead toy_primitives events server
      (new_pool-IsValid (ipv4_network 168296448 24) 168296449)

abbrev pub session : ClientSession
session =
    record (new_session arrival (replicate 32 1) (codes "10.8.0.2") 5
      (fresh_cipher (replicate 32 1) 5 false) (fresh_cipher (replicate 32 2) 5 false)) {
        proxy_pending_buffers = (4, []) ∷ [];
        proxy_connecting = 4 ∷ [];
      }

stream_example : Streaming 4 (1 ∷ 2 ∷ 3 ∷ 4 ∷ []) (
    deliver_all toy_aead 4 ((4 ∷ []) ∷ []) (
      connection_opened toy_aead 4 (deliver_all toy_aead 4 ((1 ∷ 2 ∷ []) ∷ (3 ∷ []) ∷ []) session)))
stream_example =
    stream_in_order toy_aead 4 ((1 ∷ 2 ∷ []) ∷ (3 ∷ []) ∷ []) ((4 ∷ []) ∷ []) session
      (unfold new_session lookup in record { unopened = refl; connecting = refl; buffer = refl })
