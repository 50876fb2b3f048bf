-- ===== src/Client.antt =====
-- `ShinVPNClient` of shinvpn/client/client.py: the connection's states, what is sent, and what is
-- done with what arrives. `connect` is cut at its awaits. What is sent, handed to the local proxy
-- or switched on and off is recorded. Speeds and round-trip times, which are floats for display,
-- are left out. `has_proxy` says that `proxy_tunnel` is set, which it stays, `proxy_running` that it
-- serves; `killswitch_on` and `dns_shield_on` are what `enable` last answered. The calls that
-- `disconnect` makes are taken not to raise.
pub mod Config
pub mod Packets
pub mod Proxying
pub mod Relaying
pub mod Sending
pub mod EndToEnd
pub mod Lifecycle
pub mod Protection
pub mod Receiving
pub mod Events
pub mod Safety
use shin_vpn.Prelude.{
  ℕ, zero, suc, ◌+◌, ◌-◌, ◌*◌, Bytes, List, [], ◌∷◌, ◌++◌, Bool, true, false, not, ◌&&◌, ◌||◌,
  if◌then◌else◌, ◌==◌, Option, none, some, Result, ok, err, Error, runtime_error, length, take,
  drop, replicate,
}
use shin_vpn.Prelude.Errors
use shin_vpn.Prelude.Exec.{Exec, pure, raise, lift, gets, modify, ◌>>=◌, ◌>>◌}
use shin_vpn.Prelude.Struct.{pack_be, unpack_be}
use shin_vpn.Prelude.Utf8.{Text, encode, codes}
use shin_vpn.Protocol.Constants.{
  msg_handshake_resp, msg_proxy_connect, msg_proxy_data, msg_proxy_close, msg_speedtest_req,
  msg_speedtest_data, msg_keepalive,
}
use shin_vpn.Protocol.Frames.{
  shin_frame, handshake_init, disconnect, ShinFrame, new, with_type, to_bytes,
}
use shin_vpn.Protocol.Frames.ProxyConnect.{proxy_connect_payload}
use shin_vpn.Protocol.Frames.SpeedtestReq.{speedtest_req_payload}
use shin_vpn.Protocol.Frames.KeepAlive.{new_keepalive}
use shin_vpn.Protocol.Parse.{parse_frame}
use shin_vpn.Crypto.Aead.{Aead}
use shin_vpn.Crypto.Primitives.{Primitives}
use shin_vpn.Crypto.Cipher.{ShinCipher, encrypt, decrypt, rekey_bytes_threshold}
use shin_vpn.Crypto.Handshake.{
  HandshakeState, initiator, new_handshake, create_initiation, process_response,
}

pub data ClientState : Type 0 where
  disconnected connecting authenticating connected reconnecting error : ClientState

-- What the client reads of its configuration.
pub record ClientConfig : Type 0 where
  pub static_key : Bytes
  pub server_pub_key : Option Bytes
  pub enable_system_proxy : Bool
  pub enable_killswitch : Bool
  pub enable_dns_shield : Bool

-- The future that `connect` waits for.
pub data Future : Type 0 where
  no_future pending : Future
  result : Text → Future
  exception : Error → Future

pub record ShinVpnClient : Type 0 where
  pub config : ClientConfig
  pub state : ClientState
  pub allocated_vip : Text
  pub bytes_tx : ℕ
  pub bytes_rx : ℕ
  pub packets_tx : ℕ
  pub packets_rx : ℕ
  pub is_speedtesting : Bool
  pub rekey_remaining_bytes : ℕ
  pub handshake : Option HandshakeState
  pub session_id : ℕ
  pub tx_cipher : Option ShinCipher
  pub rx_cipher : Option ShinCipher
  pub handshake_future : Future
  pub has_transport : Bool
  pub running : Bool
  pub has_proxy : Bool
  pub proxy_running : Bool
  pub system_proxy_on : Bool
  pub killswitch_on : Bool
  pub dns_shield_on : Bool
  pub sent : List Bytes
  pub fed : List (ℕ × Bytes)
  pub closed : List ℕ

unfoldable pub new_client : ClientConfig → ShinVpnClient
new_client config = record {
  config = config;
  state = disconnected;
  allocated_vip = codes "0.0.0.0";
  bytes_tx = 0;
  bytes_rx = 0;
  packets_tx = 0;
  packets_rx = 0;
  is_speedtesting = false;
  rekey_remaining_bytes = 1024 * 1024 * 1024;
  handshake = none;
  session_id = 0;
  tx_cipher = none;
  rx_cipher = none;
  handshake_future = no_future;
  has_transport = false;
  running = false;
  has_proxy = false;
  proxy_running = false;
  system_proxy_on = false;
  killswitch_on = false;
  dns_shield_on = false;
  sent = [];
  fed = [];
  closed = [];
}

abbrev pub in_state : ClientState → ClientState → Bool
in_state connected connected = true
in_state authenticating authenticating = true
in_state connecting connecting = true
in_state disconnected disconnected = true
in_state reconnecting reconnecting = true
in_state error error = true
in_state a b = false

unfoldable pub set_state : ClientState → ShinVpnClient → ShinVpnClient
set_state state c = record c { state = state }

unfoldable pub send_raw : Bytes → ShinVpnClient → ShinVpnClient
send_raw data_ c = record c {
  bytes_tx = c.bytes_tx + length data_;
  packets_tx = c.packets_tx + 1;
  sent = if c.has_transport then c.sent ++ (data_ ∷ []) else c.sent;
}

-- The disconnect frame, where there is a session.
unfoldable pub send_disconnect : ShinVpnClient → ShinVpnClient
send_disconnect c = elim c.tx_cipher [
  | none ↦ c
  | some tx ↦ if c.session_id == 0 then c else elim (to_bytes (new disconnect c.session_id 1 [])) [
    | ok raw ↦ send_raw raw c
    | err e ↦ c
  ]
]

unfoldable pub disconnect_client : ShinVpnClient → ShinVpnClient
disconnect_client c =
    let sent = send_disconnect (record c { running = false }) in
    set_state disconnected (record sent {
      has_transport = false;
      proxy_running = false;
      system_proxy_on = if sent.config.enable_system_proxy then false else sent.system_proxy_on;
      killswitch_on = false;
      dns_shield_on = false;
    })

-- What `connect` does with an exception, whose text it logs.
unfoldable pub connect_failed : ShinVpnClient → ShinVpnClient
connect_failed c = disconnect_client (set_state error c)

-- connect, up to the transport. The Boolean says whether the call goes on.
unfoldable pub connect_start : ShinVpnClient → ShinVpnClient × Bool
connect_start c =
    if in_state connecting c.state || in_state authenticating c.state || in_state connected c.state
    then (c, false)
    else elim c.config.server_pub_key [
      | none ↦ (set_state error c, false)
      | some k ↦ (set_state connecting (record c { running = true }), true)
    ]

-- An exception inside `connect`.
abbrev pub caught : ShinVpnClient × Result (Unit {0}) → ShinVpnClient
caught (c, ok u) = c
caught (c, err e) = connect_failed c

abbrev pub is_some : {A : Type 0} → Option A → Bool
is_some none = false
is_some (some x) = true

module _ (P : Primitives) where
  unfoldable pub send_initiation : Bytes → Bytes → Bytes → Exec ShinVpnClient (Unit {0})
  send_initiation ephemeral_key random_id timestamp_nonce = do
    c ← gets (λ c. c)
    let started =
        create_initiation P random_id timestamp_nonce
          (new_handshake initiator c.config.static_key c.config.server_pub_key ephemeral_key)
    modify (λ c. record c { handshake = some started.0 })
    init ← lift started.1
    modify (λ c. record c { session_id = init.1 })
    raw ← lift (to_bytes (new handshake_init init.1 1 init.0))
    modify (λ c. send_raw raw (record c { handshake_future = pending }))

  -- connect, from the transport to the wait for the answer.
  unfoldable pub transport_ready : Bytes → Bytes → Bytes → ShinVpnClient → ShinVpnClient
  transport_ready ephemeral_key random_id timestamp_nonce c = caught (
      send_initiation ephemeral_key random_id timestamp_nonce
        (set_state authenticating (record c { has_transport = true })))

  -- The answer, in the state in which it is expected.
  unfoldable pub on_handshake_resp : ShinFrame → ShinVpnClient → ShinVpnClient
  on_handshake_resp f c = elim c.handshake [
    | none ↦ (elim c.handshake_future [
      | pending ↦ record c { handshake_future = exception Errors.type_error }
      | _ ↦ c
    ])
    | some hs ↦
        let answered = process_response P f.payload hs in
        let c' = record c { handshake = some answered.0 } in
        elim c'.handshake_future [
          | pending ↦ record c' {
            handshake_future = elim answered.1 [ ok vip ↦ result vip | err e ↦ exception e ];
          }
          | _ ↦ c'
        ]
  ]

-- What the calls that `connect` makes after the handshake return or raise: `start` of the local
-- proxy, and `enable` of the system proxy, the kill switch and the DNS shield.
pub record SetUp : Type 0 where
  pub proxy_start : Result (Unit {0})
  pub system_proxy_enabled : Bool
  pub killswitch_enabled : Result Bool
  pub dns_shield_enabled : Bool

-- The answers of `enable` are recorded, and change nothing: the client is connected all the same.
unfoldable pub shielded_up : SetUp → ShinVpnClient → ShinVpnClient
shielded_up su c =
    set_state connected
      (if c.config.enable_dns_shield then record c { dns_shield_on = su.dns_shield_enabled } else c)

unfoldable pub guarded_up : SetUp → ShinVpnClient → ShinVpnClient
unfolding shielded_up
guarded_up su c =
    if c.config.enable_killswitch
    then elim su.killswitch_enabled [
      | err e ↦ connect_failed (record c { killswitch_on = false })
      | ok b ↦ shielded_up su (record c { killswitch_on = b })
    ]
    else shielded_up su c

-- connect, after the wait: the future has a result, an exception, or the wait timed out.
unfoldable pub established : SetUp → HandshakeState → ShinVpnClient → ShinVpnClient
unfolding guarded_up
established su hs c =
    let c' = record c {
      tx_cipher = hs.tx_cipher;
      rx_cipher = hs.rx_cipher;
      allocated_vip = elim hs.allocated_vip [ none ↦ codes "10.8.0.2" | some vip ↦ vip ];
      has_proxy = true;
    } in
    elim su.proxy_start [
      | err e ↦ connect_failed c'
      | ok u ↦ guarded_up su (record c' {
        proxy_running = true;
        system_proxy_on =
            if c.config.enable_system_proxy then su.system_proxy_enabled else c.system_proxy_on;
      })
    ]

unfoldable pub handshake_awaited : SetUp → ShinVpnClient → ShinVpnClient
handshake_awaited su c = elim c.handshake_future [
  | result vip ↦ elim c.handshake [ none ↦ connect_failed c | some hs ↦ established su hs c ]
  | exception e ↦ connect_failed c
  | pending ↦ connect_failed c
  | no_future ↦ connect_failed c
]

unfoldable pub on_connection_lost : ShinVpnClient → ShinVpnClient
on_connection_lost c = if c.running then set_state reconnecting c else c

-- _reconnect, after its pause.
unfoldable pub reconnect : ShinVpnClient → ShinVpnClient × Bool
reconnect c = if c.running then connect_start c else (c, false)

-- What is left of the threshold, for display.
unfoldable pub update_rekey : ShinVpnClient → ShinVpnClient
update_rekey c = elim c.tx_cipher [
  | none ↦ c
  | some tx ↦ record c { rekey_remaining_bytes = rekey_bytes_threshold - tx.bytes_encrypted }
]

-- A ping of the keep-alive loop at the time `now`.
unfoldable pub send_keepalive : ℕ → ShinVpnClient → ShinVpnClient
send_keepalive now c = elim (to_bytes (new_keepalive now c.session_id 0 (some now) [])) [
  | err e ↦ c
  | ok raw ↦ send_raw raw c
]
