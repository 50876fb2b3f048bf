-- ===== src/Crypto/Handshake.antt =====
-- `HandshakeState` of shinvpn/crypto/handshake.py, and `load_public_key` of crypto/keys.py. A key
-- pair is its private key; random bytes are arguments.
pub mod Slices
pub mod Initiation
pub mod Acceptance
pub mod Agreement
use shin_vpn.Prelude.{
  ℕ, ◌+◌, Bytes, List, [], ◌∷◌, ◌++◌, Bool, true, false, not, ◌&&◌, ◌||◌, Option, none, some,
  Result, ok, err, value_error, runtime_error, permission_error, ltb, ◌==◌, if◌then◌else◌, length,
  take, slice, bytes_eq, get_elem?,
}
use shin_vpn.Prelude.Errors
use shin_vpn.Prelude.Exec.{Exec, pure, raise, lift, gets, modify, ◌>>=◌, ◌>>◌}
use shin_vpn.Prelude.Struct.{pack_le, value_le}
use shin_vpn.Prelude.Utf8.{Text, codes}
use shin_vpn.Prelude.Decimal.{split, int_of, dotted}
use shin_vpn.Crypto.Cipher.{ShinCipher, new_cipher}
use shin_vpn.Crypto.Primitives.{Primitives}

unfoldable pub protocol_salt : Bytes
protocol_salt = codes "ShinVPN_DelusionalClub_v1_Salt"

unfoldable pub info_key_tx : Bytes
info_key_tx = codes "ShinVPN_Transmit_Key_v1"

unfoldable pub info_key_rx : Bytes
info_key_rx = codes "ShinVPN_Receive_Key_v1"

unfoldable pub info_auth : Bytes
info_auth = codes "ShinVPN_Handshake_Auth_v1"

unfoldable pub info_resp_auth : Bytes
info_resp_auth = codes "ShinVPN_Resp_Auth_v1"

pub data HandshakeRole : Type 0 where
  initiator responder : HandshakeRole

pub record HandshakeState : Type 0 where
  pub role : HandshakeRole
  pub static_key : Bytes
  pub peer_static_pub : Option Bytes
  pub ephemeral_key : Bytes
  pub peer_ephemeral_pub : Option Bytes
  pub session_id : ℕ
  pub is_completed : Bool
  pub tx_cipher : Option ShinCipher
  pub rx_cipher : Option ShinCipher
  pub allocated_vip : Option Text

-- `ephemeral_key` is what KeyPair.generate() returns.
unfoldable pub new_handshake : HandshakeRole → Bytes → Option Bytes → Bytes → HandshakeState
new_handshake role static_key peer_static_pub ephemeral_key = record {
  role = role;
  static_key = static_key;
  peer_static_pub = peer_static_pub;
  ephemeral_key = ephemeral_key;
  peer_ephemeral_pub = none;
  session_id = 0;
  is_completed = false;
  tx_cipher = none;
  rx_cipher = none;
  allocated_vip = none;
}

unfoldable pub load_public_key : Bytes → Result Bytes
load_public_key raw = if not (length raw == 32) then err value_error else ok raw

-- key in keys
abbrev pub key_in : Bytes → List Bytes → Bool
key_in k [] = false
key_in k (x ∷ xs) = bytes_eq k x || key_in k xs

abbrev pub authorized : Bytes → Option (List Bytes) → Bool
authorized k none = true
authorized k (some keys) = key_in k keys

-- if not b: raise e
abbrev pub check : Bool → Errors.Error → Exec HandshakeState (Unit {0})
check true e = pure tt
check false e = raise e

abbrev pub is_role : HandshakeRole → HandshakeRole → Bool
is_role initiator initiator = true
is_role responder responder = true
is_role initiator responder = false
is_role responder initiator = false

-- A key that may still be missing.
abbrev pub require : Option Bytes → Errors.Error → Exec HandshakeState Bytes
require none e = raise e
require (some k) e = pure k

-- bytes([int(x) for x in vip.split(".")])
unfoldable pub octets : List Text → Result Bytes
octets [] = ok []
octets (t ∷ ts) =
    Errors.◌>>=◌ (int_of t)
      λ v. if ltb 255 v then err value_error else Errors.◌>>=◌ (octets ts) λ rest. ok (v ∷ rest)

-- f"{b[0]}.{b[1]}.{b[2]}.{b[3]}" of four bytes.
unfoldable pub dotted_of : Bytes → Text
dotted_of (w ∷ x ∷ y ∷ z ∷ r) = dotted w x y z
dotted_of r = []

module _ (P : Primitives) where
  open P use {public_key, exchange, hkdf, hmac}

  unfoldable pub create_initiation : Bytes → Bytes → Exec HandshakeState (Bytes × ℕ)
  create_initiation random_id timestamp_nonce = do
    role ← gets (λ s. s.role)
    check (is_role role initiator) runtime_error
    peer ← gets (λ s. s.peer_static_pub)
    peer_pub ← require peer value_error
    modify (λ s. record s { session_id = value_le random_id })
    s ← gets (λ s. s)
    dh1 ← lift (exchange s.ephemeral_key peer_pub)
    dh2 ← lift (exchange s.static_key peer_pub)
    id ← lift (pack_le 4 s.session_id)
    let raw_body =
        id ++ (public_key s.ephemeral_key ++ (public_key s.static_key ++ timestamp_nonce))
    let auth_key = hkdf protocol_salt info_auth (dh1 ++ dh2)
    pure (raw_body ++ take 16 (hmac auth_key raw_body), s.session_id)

  unfoldable pub process_initiation :
      Bytes → Option (List Bytes) → Exec HandshakeState (Bytes × Bytes)
  process_initiation init_bytes allowed = do
    role ← gets (λ s. s.role)
    check (is_role role responder) runtime_error
    check (not (ltb (length init_bytes) 116)) value_error
    modify (λ s. record s { session_id = value_le (take 4 init_bytes) })
    let client_eph_pub = slice 4 36 init_bytes
    let client_static_pub = slice 36 68 init_bytes
    let provided_mac = slice 100 116 init_bytes
    check (authorized client_static_pub allowed) permission_error
    peer_static ← lift (load_public_key client_static_pub)
    modify (λ s. record s { peer_static_pub = some peer_static })
    peer_eph ← lift (load_public_key client_eph_pub)
    modify (λ s. record s { peer_ephemeral_pub = some peer_eph })
    s ← gets (λ s. s)
    dh1 ← lift (exchange s.static_key peer_eph)
    dh2 ← lift (exchange s.static_key peer_static)
    let auth_key = hkdf protocol_salt info_auth (dh1 ++ dh2)
    let computed_mac = take 16 (hmac auth_key (take 100 init_bytes))
    check (bytes_eq provided_mac computed_mac) permission_error
    pure (client_static_pub, client_eph_pub)

  -- What both ends derive from the three secrets.
  abbrev pub master : Bytes → Bytes → Bytes → Bytes
  master dh1 dh2 dh3 = dh1 ++ (dh2 ++ dh3)

  unfoldable pub create_response : Text → Bytes → Exec HandshakeState Bytes
  create_response allocated_vip server_nonce = do
    role ← gets (λ s. s.role)
    check (is_role role responder) runtime_error
    peer_e ← gets (λ s. s.peer_ephemeral_pub)
    peer_eph ← require peer_e runtime_error
    peer_s ← gets (λ s. s.peer_static_pub)
    peer_static ← require peer_s runtime_error
    modify (λ s. record s { allocated_vip = some allocated_vip })
    s ← gets (λ s. s)
    dh1 ← lift (exchange s.static_key peer_eph)
    dh2 ← lift (exchange s.static_key peer_static)
    dh3 ← lift (exchange s.ephemeral_key peer_eph)
    let secret = master dh1 dh2 dh3
    tx ← lift (new_cipher (hkdf protocol_salt info_key_tx secret) s.session_id false)
    modify (λ s. record s { tx_cipher = some tx })
    rx ← lift (new_cipher (hkdf protocol_salt info_key_rx secret) s.session_id false)
    modify (λ s. record s { rx_cipher = some rx })
    vip_bytes ← lift (octets (split b'.' allocated_vip))
    id ← lift (pack_le 4 s.session_id)
    let raw_body = id ++ (public_key s.ephemeral_key ++ (vip_bytes ++ server_nonce))
    let auth_key = hkdf protocol_salt info_resp_auth secret
    modify (λ s. record s { is_completed = true })
    pure (raw_body ++ take 16 (hmac auth_key raw_body))

  unfoldable pub process_response : Bytes → Exec HandshakeState Text
  process_response resp_bytes = do
    role ← gets (λ s. s.role)
    check (is_role role initiator) runtime_error
    check (not (ltb (length resp_bytes) 88)) value_error
    id ← gets (λ s. s.session_id)
    check (value_le (take 4 resp_bytes) == id) value_error
    let provided_mac = slice 72 88 resp_bytes
    peer_eph ← lift (load_public_key (slice 4 36 resp_bytes))
    modify (λ s. record s { peer_ephemeral_pub = some peer_eph })
    let vip = dotted_of (slice 36 40 resp_bytes)
    modify (λ s. record s { allocated_vip = some vip })
    s ← gets (λ s. s)
    peer_static ← require s.peer_static_pub Errors.type_error
    dh1 ← lift (exchange s.ephemeral_key peer_static)
    dh2 ← lift (exchange s.static_key peer_static)
    dh3 ← lift (exchange s.ephemeral_key peer_eph)
    let secret = master dh1 dh2 dh3
    let auth_key = hkdf protocol_salt info_resp_auth secret
    let computed_mac = take 16 (hmac auth_key (take 72 resp_bytes))
    check (bytes_eq provided_mac computed_mac) permission_error
    tx ← lift (new_cipher (hkdf protocol_salt info_key_rx secret) s.session_id true)
    modify (λ s. record s { tx_cipher = some tx })
    rx ← lift (new_cipher (hkdf protocol_salt info_key_tx secret) s.session_id true)
    modify (λ s. record s { rx_cipher = some rx })
    modify (λ s. record s { is_completed = true })
    pure vip
