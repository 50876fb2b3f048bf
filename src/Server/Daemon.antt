-- ===== src/Server/Daemon.antt =====
-- `ShinVPNServer` of shinvpn/server/server.py. The three dicts share their session objects, so they
-- hold references into `objects`. A handler is one step; an exception that it does not catch ends
-- its task and leaves what was written.
pub mod Leases
use shin_vpn.Prelude.{
  ℕ, ◌+◌, ◌-◌, Bytes, List, [], ◌∷◌, ◌++◌, Bool, true, false, not, ◌&&◌, ◌||◌, if◌then◌else◌, ◌==◌,
  ltb, Option, none, some, Result, ok, err, length, bytes_eq, map,
}
use shin_vpn.Prelude.Exec.{Exec}
use shin_vpn.Prelude.Assoc.{Assoc, lookup, insert, erase}
use shin_vpn.Prelude.Utf8.{Text}
use shin_vpn.Protocol.Constants.{
  msg_handshake_init, msg_keepalive, msg_data_packet, msg_proxy_connect, msg_proxy_data,
  msg_proxy_close, msg_speedtest_req, msg_disconnect,
}
use shin_vpn.Protocol.Frames.{handshake_resp, ShinFrame, new, to_bytes}
use shin_vpn.Protocol.Parse.{parse_frame}
use shin_vpn.Crypto.Aead.{Aead}
use shin_vpn.Crypto.Primitives.{Primitives}
use shin_vpn.Crypto.Cipher.{ShinCipher}
use shin_vpn.Crypto.Handshake.{
  HandshakeState, responder, new_handshake, process_initiation, create_response,
}
use shin_vpn.Server.IpPool.{IpPool, allocate, release}
use shin_vpn.Server.Session.{
  Transport, udp, stealth, ClientSession, Serving, handle_keepalive, handle_data_packet,
  handle_proxy_frame, handle_speedtest_req,
}

abbrev pub Addr : Type 0
Addr = Text × ℕ

abbrev pub addr_eq : Addr → Addr → Bool
addr_eq (h, p) (k, q) = bytes_eq h k && p == q

pub record ShinVpnServer : Type 0 where
  pub static_key : Bytes
  pub ip_pool : IpPool
  pub objects : Assoc ℕ ClientSession
  pub next_ref : ℕ
  pub sessions_by_id : Assoc ℕ ℕ
  pub sessions_by_addr : Assoc Addr ℕ
  pub sessions_by_vip : Assoc Text ℕ
  pub allowed_pub_keys : Assoc Bytes Text
  pub tun_is_open : Bool
  pub is_running : Bool
  pub outbox : List (Bytes × Addr)
  pub tun_packets : List Bytes
  pub opening : List (ℕ × (ℕ × Text × ℕ))

-- `raw_k` is what base64.b64decode makes of the key, or none where it raises.
unfoldable pub authorize_peer : Option Bytes → Text → ShinVpnServer → ShinVpnServer
authorize_peer none name v = v
authorize_peer (some raw_k) name v = record v {
  allowed_pub_keys = insert bytes_eq raw_k name v.allowed_pub_keys;
}

abbrev pub keys {ℓ κ} : {K : Type ℓ} {V : Type κ} → Assoc K V → List K
keys [] = []
keys ((k, v) ∷ d) = k ∷ keys d

-- list(keys) if there are any, else None
abbrev pub allowed_list : Assoc Bytes Text → Option (List Bytes)
allowed_list [] = none
allowed_list (e ∷ d) = some (keys (e ∷ d))

unfoldable pub forget : ℕ → ClientSession → ShinVpnServer → ShinVpnServer
forget ref s v = record v {
  sessions_by_id = erase ◌==◌ s.session_id v.sessions_by_id;
  sessions_by_addr = erase addr_eq s.client_addr v.sessions_by_addr;
  sessions_by_vip = erase bytes_eq s.virtual_ip v.sessions_by_vip;
  ip_pool = release v.ip_pool s.session_id;
  objects = insert ◌==◌ ref (record s { proxy_streams = [] }) v.objects;
}

unfoldable pub close_session : ℕ → ShinVpnServer → ShinVpnServer
close_session ref v = elim (lookup ◌==◌ ref v.objects) [ none ↦ v | some s ↦ forget ref s v ]

unfoldable pub handle_stealth_disconnect : Addr → ShinVpnServer → ShinVpnServer
handle_stealth_disconnect addr v = elim (lookup addr_eq addr v.sessions_by_addr) [
  | none ↦ v
  | some ref ↦
      close_session ref (record v { sessions_by_addr = erase addr_eq addr v.sessions_by_addr })
]

-- The entries of sessions_by_id whose object was last seen more than 60 seconds ago.
unfoldable pub stale : ℕ → ℕ → Assoc ℕ ClientSession → Assoc ℕ ℕ → List ℕ
stale ticks_per_minute now objects [] = []
stale ticks_per_minute now objects ((id, ref) ∷ d) =
    let rest = stale ticks_per_minute now objects d in
    elim (lookup ◌==◌ ref objects) [
      | none ↦ rest
      | some s ↦ if ltb (s.last_seen + ticks_per_minute) now then ref ∷ rest else rest
    ]

unfoldable pub close_all : List ℕ → ShinVpnServer → ShinVpnServer
close_all [] v = v
close_all (ref ∷ refs) v = close_all refs (close_session ref v)

-- One round of the janitor.
unfoldable pub session_janitor : ℕ → ℕ → ShinVpnServer → ShinVpnServer
session_janitor ticks_per_minute now v =
    close_all (stale ticks_per_minute now v.objects v.sessions_by_id) v

abbrev pub refs_of : Assoc ℕ ℕ → List ℕ
refs_of [] = []
refs_of ((id, ref) ∷ d) = ref ∷ refs_of d

unfoldable pub stop : ShinVpnServer → ShinVpnServer
stop v =
    let v' = record v { is_running = false; tun_is_open = false } in
    close_all (refs_of v'.sessions_by_id) v'

-- What one packet comes with: the time, the sender, the transport, and the random bytes that a
-- handshake would draw.
pub record Inbound : Type 0 where
  pub raw_data : Bytes
  pub addr : Addr
  pub transport_type : Transport
  pub has_send_cb : Bool
  pub now : ℕ
  pub ephemeral_key : Bytes
  pub server_nonce : Bytes

-- Is a packet for this sender sent: over UDP, or by the callback.
abbrev pub reachable : Inbound → Bool
reachable i = elim i.transport_type [ udp ↦ true | stealth ↦ i.has_send_cb ]

unfoldable pub post : Bool → Result Bytes → Addr → ShinVpnServer → ShinVpnServer
post reach (err e) addr v = v
post reach (ok raw) addr v =
    if reach then record v { outbox = v.outbox ++ ((raw, addr) ∷ []) } else v

-- Files a new session object and answers.
unfoldable pub register : Inbound → Bytes → ℕ → ClientSession → ShinVpnServer → ShinVpnServer
register i payload id s v =
    post (reachable i) (to_bytes (new handshake_resp id 1 payload)) i.addr (record v {
      objects = insert ◌==◌ v.next_ref s v.objects;
      next_ref = v.next_ref + 1;
      sessions_by_id = insert ◌==◌ s.session_id v.next_ref v.sessions_by_id;
      sessions_by_addr = insert addr_eq i.addr v.next_ref v.sessions_by_addr;
      sessions_by_vip = insert bytes_eq s.virtual_ip v.next_ref v.sessions_by_vip;
    })

unfoldable pub new_session : Inbound → Bytes → Text → ℕ → ShinCipher → ShinCipher → ClientSession
new_session i client_pub vip id tx rx = record {
  session_id = id;
  client_pub = client_pub;
  client_addr = i.addr;
  virtual_ip = vip;
  tx_cipher = tx;
  rx_cipher = rx;
  transport_type = i.transport_type;
  has_send_cb = i.has_send_cb;
  created_at = i.now;
  last_seen = i.now;
  bytes_tx = 0;
  bytes_rx = 0;
  proxy_streams = [];
  proxy_pending_buffers = [];
  proxy_connecting = [];
}

-- After create_response: both ciphers are there.
unfoldable pub admitted :
    Inbound → Bytes → Text → HandshakeState × Result Bytes → ShinVpnServer → ShinVpnServer
admitted i client_pub vip (hs, err e) v = v
admitted i client_pub vip (hs, ok payload) v = elim hs.tx_cipher [
  | none ↦ v
  | some tx ↦ elim hs.rx_cipher [
    | none ↦ v
    | some rx ↦
        register i payload hs.session_id (new_session i client_pub vip hs.session_id tx rx) v
  ]
]

module _ (P : Primitives) where
  -- With the address that the pool gave; the lease stays where the response fails.
  unfoldable pub respond :
      Inbound → Bytes → HandshakeState → Result Text → ShinVpnServer → ShinVpnServer
  respond i client_pub hs (err e) v = v
  respond i client_pub hs (ok vip) v =
      admitted i client_pub vip (create_response P vip i.server_nonce hs) v

  unfoldable pub introduced :
      Inbound → HandshakeState × Result (Bytes × Bytes) → ShinVpnServer → ShinVpnServer
  introduced i (hs, err e) v = v
  introduced i (hs, ok (client_pub, client_eph)) v =
      let leased = allocate v.ip_pool hs.session_id none in
      respond i client_pub hs leased.1 (record v { ip_pool = leased.0 })

  unfoldable pub handle_handshake_init : Inbound → ShinFrame → ShinVpnServer → ShinVpnServer
  handle_handshake_init i f v =
      introduced i
        (process_initiation P f.payload (allowed_list v.allowed_pub_keys)
          (new_handshake responder v.static_key none i.ephemeral_key))
        v

module _ (aead : Aead) where
  -- The handler of the frame's type, but for a disconnect.
  unfoldable pub serve : ℕ → Bool → ShinFrame → Serving → Serving
  serve now tun_is_open f v =
      if f.msg_type == msg_keepalive
      then (handle_keepalive aead now f v).0
      else if f.msg_type == msg_data_packet
      then (handle_data_packet aead tun_is_open f v).0
      else if f.msg_type == msg_proxy_connect
          || f.msg_type == msg_proxy_data
          || f.msg_type == msg_proxy_close
      then (handle_proxy_frame aead f v).0
      else if f.msg_type == msg_speedtest_req
      then (handle_speedtest_req aead f v).0
      else v

  -- What the handler did, in the server.
  unfoldable pub commit : ℕ → Serving → ShinVpnServer → ShinVpnServer
  commit ref w v = record v {
    objects = insert ◌==◌ ref w.session v.objects;
    outbox = v.outbox ++ map (λ raw. (raw, w.session.client_addr)) w.sent;
    tun_packets = v.tun_packets ++ w.tun_packets;
    opening = v.opening ++ map (λ c. (ref, c)) w.opening;
  }

  unfoldable pub handle_session_frame :
      Inbound → ShinFrame → ℕ → ClientSession → ShinVpnServer → ShinVpnServer
  handle_session_frame i f ref s v =
      let seen = record s { last_seen = i.now; bytes_rx = s.bytes_rx + length i.raw_data } in
      let w =
        serve i.now v.tun_is_open f
          (record { session = seen; sent = []; tun_packets = []; opening = [] }) in
      let v' = commit ref w v in if f.msg_type == msg_disconnect then close_session ref v' else v'

  unfoldable pub dispatch : Primitives → Inbound → ShinFrame → ShinVpnServer → ShinVpnServer
  dispatch P i f v =
      if f.msg_type == msg_handshake_init
      then handle_handshake_init P i f v
      else elim (lookup ◌==◌ f.session_id v.sessions_by_id) [
        | none ↦ v
        | some ref ↦ elim (lookup ◌==◌ ref v.objects) [
          | none ↦ v
          | some s ↦ handle_session_frame i f ref s v
        ]
      ]

  unfoldable pub process_inbound_packet : Primitives → Inbound → ShinVpnServer → ShinVpnServer
  process_inbound_packet P i v = elim (parse_frame i.now i.raw_data) [
    | err e ↦ v
    | ok f ↦ dispatch P i f v
  ]
