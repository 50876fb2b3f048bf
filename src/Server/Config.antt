-- ===== src/Server/Config.antt =====
-- shinvpn/server/config.py. A field of a dataclass holds whatever value it was given.
pub mod Saved
use shin_vpn.Prelude.{
  ℕ, List, [], ◌∷◌, ◌++◌, Option, none, some, Result, ok, err, type_error, attribute_error,
}
use shin_vpn.Prelude.Errors.{◌>>=◌, ◌>>◌}
use shin_vpn.Prelude.Utf8.{Text, codes}
use shin_vpn.Prelude.Int.{pos}
use shin_vpn.Prelude.Assoc.{Assoc, lookup, erase}
use shin_vpn.Prelude.{bytes_eq, Bool, true}
use shin_vpn.Prelude.Json.{
  Json, null, boolean, int, float, str, arr, obj, Items, nil, cons, end, field, to_items, of_items,
  to_fields, of_fields, JsonFiles, load_json, save_json, known_keys, or_default, required,
}
use shin_vpn.Crypto.Keys.{KeyPair, private_b64, public_b64}

pub record AllowedPeer : Type 0 where
  pub name : Json
  pub public_key : Json
  pub allowed_ip : Json

pub record ServerConfig : Type 0 where
  pub listen_host : Json
  pub udp_port : Json
  pub stealth_port : Json
  pub enable_stealth : Json
  pub private_key : Json
  pub public_key : Json
  pub virtual_subnet : Json
  pub server_virtual_ip : Json
  pub dns_servers : Json
  pub mtu : Json
  pub allowed_peers : List AllowedPeer

abbrev pub default_dns_servers : Json
default_dns_servers = arr (cons (str (codes "1.1.1.1")) (cons (str (codes "1.0.0.1")) nil))

abbrev pub peer_fields : List Text
peer_fields = codes "name" ∷ codes "public_key" ∷ codes "allowed_ip" ∷ []

abbrev pub config_fields : List Text
config_fields =
    codes "listen_host"
    ∷ codes "udp_port"
    ∷ codes "stealth_port"
    ∷ codes "enable_stealth"
    ∷ codes "private_key"
    ∷ codes "public_key"
    ∷ codes "virtual_subnet"
    ∷ codes "server_virtual_ip"
    ∷ codes "dns_servers"
    ∷ codes "mtu"
    ∷ []

-- AllowedPeer(**d)
unfoldable pub new_peer : Assoc Text Json → Result AllowedPeer
new_peer d = do
  known_keys peer_fields d
  name ← required (codes "name") d
  public_key ← required (codes "public_key") d
  ok (record {
    name = name;
    public_key = public_key;
    allowed_ip = or_default (codes "allowed_ip") null d;
  })

abbrev pub peer_of : Json → Result AllowedPeer
peer_of (obj d) = new_peer (of_fields d)
peer_of v = err type_error

unfoldable pub peers_of_items : List Json → Result (List AllowedPeer)
peers_of_items [] = ok []
peers_of_items (v ∷ vs) = do p ← peer_of v; ps ← peers_of_items vs; ok (p ∷ ps)

-- The comprehension over what "allowed_peers" holds: an empty text or dict has nothing in it, and
-- what is in another one is no dict.
abbrev pub peers_of : Json → Result (List AllowedPeer)
peers_of (arr items) = peers_of_items (of_items items)
peers_of (str []) = ok []
peers_of (obj end) = ok []
peers_of v = err type_error

-- cls(allowed_peers=peers, **d)
unfoldable pub new_config : List AllowedPeer → Assoc Text Json → Result ServerConfig
new_config peers d = do
  known_keys config_fields d
  ok (record {
    listen_host = or_default (codes "listen_host") (str (codes "0.0.0.0")) d;
    udp_port = or_default (codes "udp_port") (int (pos 51820)) d;
    stealth_port = or_default (codes "stealth_port") (int (pos 8443)) d;
    enable_stealth = or_default (codes "enable_stealth") (boolean true) d;
    private_key = or_default (codes "private_key") (str []) d;
    public_key = or_default (codes "public_key") (str []) d;
    virtual_subnet = or_default (codes "virtual_subnet") (str (codes "10.8.0.0/24")) d;
    server_virtual_ip = or_default (codes "server_virtual_ip") (str (codes "10.8.0.1")) d;
    dns_servers = or_default (codes "dns_servers") default_dns_servers d;
    mtu = or_default (codes "mtu") (int (pos 1420)) d;
    allowed_peers = peers;
  })

unfoldable pub generate_default : KeyPair → Result ServerConfig
generate_default kp =
    new_config []
      ((codes "private_key", str (private_b64 kp)) ∷ (codes "public_key", str (public_b64 kp)) ∷ [])

-- load_from_file, on the value that the file holds.
abbrev pub loaded : Json → Result ServerConfig
loaded (obj fields) = do
  let d = of_fields fields
  peers ← peers_of (or_default (codes "allowed_peers") (arr nil) d)
  new_config peers (erase bytes_eq (codes "allowed_peers") d)
loaded (arr items) = err type_error
loaded v = err attribute_error

unfoldable pub load_from_file : Text → JsonFiles → Result ServerConfig
load_from_file path files = do v ← load_json path files; loaded v

-- asdict
abbrev pub peer_dict : AllowedPeer → Json
peer_dict p = obj (
    to_fields (
      (codes "name", p.name)
      ∷ (codes "public_key", p.public_key)
      ∷ (codes "allowed_ip", p.allowed_ip)
      ∷ []))

abbrev pub peer_dicts : List AllowedPeer → List Json
peer_dicts [] = []
peer_dicts (p ∷ ps) = peer_dict p ∷ peer_dicts ps

unfoldable pub config_dict : ServerConfig → Json
config_dict c = obj (
    to_fields (
      (codes "listen_host", c.listen_host)
      ∷ (codes "udp_port", c.udp_port)
      ∷ (codes "stealth_port", c.stealth_port)
      ∷ (codes "enable_stealth", c.enable_stealth)
      ∷ (codes "private_key", c.private_key)
      ∷ (codes "public_key", c.public_key)
      ∷ (codes "virtual_subnet", c.virtual_subnet)
      ∷ (codes "server_virtual_ip", c.server_virtual_ip)
      ∷ (codes "dns_servers", c.dns_servers)
      ∷ (codes "mtu", c.mtu)
      ∷ (codes "allowed_peers", arr (to_items (peer_dicts c.allowed_peers)))
      ∷ []))

unfoldable pub save_to_file : Text → ServerConfig → JsonFiles → JsonFiles
save_to_file path c files = save_json path (config_dict c) files

unfoldable pub add_peer : Json → Json → Json → ServerConfig → ServerConfig
add_peer name public_key allowed_ip c = record c {
  allowed_peers =
      c.allowed_peers
      ++ ((record { name = name; public_key = public_key; allowed_ip = allowed_ip }) ∷ []);
}
