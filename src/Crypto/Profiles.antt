-- ===== src/Crypto/Profiles.antt =====
-- Device profiles, of shinvpn/crypto/profiles.py. The clock and the key pair are arguments; the
-- profiles file holds what `save_profiles` wrote to it, or is not there; a QR code's matrix is what
-- the `qrcode` package made, or its exception's text.
pub mod Addresses
use shin_vpn.Prelude.{
  ℕ, zero, suc, ◌+◌, ◌*◌, ◌/◌, ◌%◌, List, [], ◌∷◌, ◌++◌, Bool, true, false, not, ◌||◌,
  if◌then◌else◌, ltb, Option, none, some, Result, ok, err, value_error, length, bytes_eq, is_empty,
}
use shin_vpn.Prelude.Utf8.{Text, codes}
use shin_vpn.Prelude.Int.{show_nat}
use shin_vpn.Prelude.Assoc.{Assoc, lookup, has, insert, erase}
use shin_vpn.Prelude.Json.{Json, str, is_text, JsonFiles}
use shin_vpn.Crypto.Keys.{KeyPair, private_b64, public_b64}
use shin_vpn.Server.Config
use shin_vpn.Server.Config.{AllowedPeer, ServerConfig, add_peer}

pub record DeviceProfile : Type 0 where
  pub id : Text
  pub name : Text
  pub device_type : Text
  pub private_key : Text
  pub public_key : Text
  pub allocated_vip : Text
  pub created_at : ℕ
  pub bytes_consumed : ℕ
  pub last_connected : ℕ

-- `writable` says whether the profiles file can be written.
pub record ProfileManager : Type 0 where
  pub profiles : Assoc Text DeviceProfile
  pub profiles_file : Option (Assoc Text DeviceProfile)
  pub writable : Bool

unfoldable pub save_profiles : ProfileManager → ProfileManager
save_profiles m = if m.writable then record m { profiles_file = some m.profiles } else m

unfoldable pub put_all :
    Assoc Text DeviceProfile → Assoc Text DeviceProfile → Assoc Text DeviceProfile
put_all [] d = d
put_all ((k, p) ∷ ps) d = put_all ps (insert bytes_eq k p d)

unfoldable pub load_profiles : ProfileManager → ProfileManager
load_profiles m = elim m.profiles_file [
  | none ↦ m
  | some saved ↦ record m { profiles = put_all saved m.profiles }
]

unfoldable pub new_manager : Option (Assoc Text DeviceProfile) → Bool → ProfileManager
new_manager profiles_file writable =
    load_profiles (record { profiles = []; profiles_file = profiles_file; writable = writable })

-- f"dev_{seconds}_{count}"
abbrev pub profile_id : ℕ → ℕ → Text
profile_id seconds count = codes "dev_" ++ (show_nat seconds ++ (b'_' ∷ show_nat count))

-- f"10.8.0.{n}"
abbrev pub vip_of : ℕ → Text
vip_of n = codes "10.8.0." ++ show_nat n

unfoldable pub new_profile : Text → Text → KeyPair → ℕ → ℕ → ProfileManager → DeviceProfile
new_profile name device_type kp seconds now m = record {
  id = profile_id seconds (length m.profiles + 1);
  name = name;
  device_type = device_type;
  private_key = private_b64 kp;
  public_key = public_b64 kp;
  allocated_vip = vip_of (length m.profiles + 2);
  created_at = now;
  bytes_consumed = 0;
  last_connected = 0;
}

abbrev pub has_peer : Text → List AllowedPeer → Bool
has_peer key [] = false
has_peer key (p ∷ ps) = is_text key p.public_key || has_peer key ps

-- The peer is added to the server's configuration, where that can be read and lacks its key.
unfoldable pub register_peer : Text → DeviceProfile → JsonFiles → JsonFiles
register_peer server_config_path p files = elim (Config.load_from_file server_config_path files) [
  | err e ↦ files
  | ok cfg ↦
      if has_peer p.public_key cfg.allowed_peers
      then files
      else Config.save_to_file server_config_path
          (add_peer (str p.name) (str p.public_key) (str p.allocated_vip) cfg) files
]

unfoldable pub create_profile :
    Text
    → Text
    → Text
    → KeyPair
    → ℕ
    → ℕ
    → ProfileManager
    → JsonFiles
    → ProfileManager × JsonFiles × DeviceProfile
create_profile name device_type server_config_path kp seconds now m files =
    let p = new_profile name device_type kp seconds now m in
    (
      save_profiles (record m { profiles = insert bytes_eq p.id p m.profiles }),
      register_peer server_config_path p files,
      p,
    )

unfoldable pub update_usage : Text → ℕ → ℕ → ProfileManager → ProfileManager
update_usage profile_id bytes_delta now m = elim (lookup bytes_eq profile_id m.profiles) [
  | none ↦ m
  | some p ↦ save_profiles (record m {
    profiles =
        insert bytes_eq profile_id
          (record p { bytes_consumed = p.bytes_consumed + bytes_delta; last_connected = now })
          m.profiles;
  })
]

unfoldable pub delete_profile : Text → ProfileManager → ProfileManager × Bool
delete_profile profile_id m =
    if has bytes_eq profile_id m.profiles
    then (save_profiles (record m { profiles = erase bytes_eq profile_id m.profiles }), true)
    else (m, false)

-- The server's key, from its configuration where none is given. `shown` is `str` of a value that is
-- no text.
unfoldable pub server_key : (Json → Text) → Text → JsonFiles → Text
server_key shown server_pubkey files =
    if not (is_empty server_pubkey)
    then server_pubkey
    else elim (Config.load_from_file (codes "server.json") files) [
      | err e ↦ server_pubkey
      | ok cfg ↦ shown cfg.public_key
    ]

unfoldable pub generate_wireguard_conf :
    (Json → Text) → Text → Text → Text → ProfileManager → JsonFiles → Result Text
generate_wireguard_conf shown profile_id server_endpoint server_pubkey m files =
    elim (lookup bytes_eq profile_id m.profiles) [
      | none ↦ err value_error
      | some p ↦ ok (
          codes "[Interface]"
          ++ (10
              ∷ (codes "PrivateKey = "
                  ++ (p.private_key
                      ++ (10
                          ∷ (codes "Address = "
                              ++ (p.allocated_vip
                                  ++ (codes "/32"
                                      ++ (10
                                          ∷ (codes "DNS = 1.1.1.1, 1.0.0.1"
                                              ++ (10
                                                  ∷ 10
                                                  ∷ (codes "[Peer]"
                                                      ++ (10
                                                          ∷ (codes "PublicKey = "
                                                            ++ (server_key shown server_pubkey files
                                                            ++ (10
                                                            ∷ (codes "Endpoint = "
                                                            ++ (server_endpoint
                                                            ++ (10
                                                            ∷ (codes "AllowedIPs = 0.0.0.0/0, ::/0"
                                                            ++ (10
                                                            ∷ (codes "PersistentKeepalive = 25"
                                                            ++ (10 ∷ [])))))))))))))))))))))))
    ]
