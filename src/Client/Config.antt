-- ===== src/Client/Config.antt =====
-- shinvpn/client/config.py. A field of a dataclass holds whatever value it was given.
use shin_vpn.Prelude.{[], ◌∷◌, List, true, false, Result, ok, err, type_error, ◌≡◌, refl}
use shin_vpn.Prelude.Errors.{◌>>=◌, ◌>>◌}
use shin_vpn.Prelude.Utf8.{Text, codes}
use shin_vpn.Prelude.Int.{pos}
use shin_vpn.Prelude.Assoc.{Assoc, lookup, insert, has}
use shin_vpn.Prelude.Json.{
  Json, boolean, int, str, arr, obj, nil, cons, to_fields, of_fields, JsonFiles, reread,
  reread_text, load_json, save_json, load_json-save_json, known_keys, or_default,
}
use shin_vpn.Crypto.Keys.{KeyPair, private_b64, public_b64}

pub record ClientConfig : Type 0 where
  pub server_host : Json
  pub udp_port : Json
  pub stealth_port : Json
  pub transport_type : Json
  pub client_private_key : Json
  pub client_public_key : Json
  pub server_public_key : Json
  pub enable_killswitch : Json
  pub enable_dns_shield : Json
  pub enable_system_proxy : Json
  pub local_proxy_port : Json
  pub dns_servers : Json
  pub mtu : Json

abbrev default_dns_servers : Json
default_dns_servers = arr (cons (str (codes "1.1.1.1")) (cons (str (codes "1.0.0.1")) nil))

abbrev pub config_fields : List Text
config_fields =
    codes "server_host"
    ∷ codes "udp_port"
    ∷ codes "stealth_port"
    ∷ codes "transport_type"
    ∷ codes "client_private_key"
    ∷ codes "client_public_key"
    ∷ codes "server_public_key"
    ∷ codes "enable_killswitch"
    ∷ codes "enable_dns_shield"
    ∷ codes "enable_system_proxy"
    ∷ codes "local_proxy_port"
    ∷ codes "dns_servers"
    ∷ codes "mtu"
    ∷ []

-- cls(**d)
unfoldable pub new_config : Assoc Text Json → Result ClientConfig
new_config d = do
  known_keys config_fields d
  ok (record {
    server_host = or_default (codes "server_host") (str (codes "127.0.0.1")) d;
    udp_port = or_default (codes "udp_port") (int (pos 51820)) d;
    stealth_port = or_default (codes "stealth_port") (int (pos 8443)) d;
    transport_type = or_default (codes "transport_type") (str (codes "udp")) d;
    client_private_key = or_default (codes "client_private_key") (str []) d;
    client_public_key = or_default (codes "client_public_key") (str []) d;
    server_public_key = or_default (codes "server_public_key") (str []) d;
    enable_killswitch = or_default (codes "enable_killswitch") (boolean false) d;
    enable_dns_shield = or_default (codes "enable_dns_shield") (boolean true) d;
    enable_system_proxy = or_default (codes "enable_system_proxy") (boolean true) d;
    local_proxy_port = or_default (codes "local_proxy_port") (int (pos 10808)) d;
    dns_servers = or_default (codes "dns_servers") default_dns_servers d;
    mtu = or_default (codes "mtu") (int (pos 1420)) d;
  })

unfoldable pub generate_default : KeyPair → Text → Result ClientConfig
generate_default kp server_pub_key = new_config (
    (codes "client_private_key", str (private_b64 kp))
    ∷ (codes "client_public_key", str (public_b64 kp))
    ∷ (codes "server_public_key", str server_pub_key)
    ∷ [])

-- load_from_file, on the value that the file holds.
abbrev pub loaded : Json → Result ClientConfig
loaded (obj fields) = new_config (of_fields fields)
loaded v = err type_error

unfoldable pub load_from_file : Text → JsonFiles → Result ClientConfig
load_from_file path files = do v ← load_json path files; loaded v

-- asdict
unfoldable pub config_dict : ClientConfig → Json
config_dict c = obj (
    to_fields (
      (codes "server_host", c.server_host)
      ∷ (codes "udp_port", c.udp_port)
      ∷ (codes "stealth_port", c.stealth_port)
      ∷ (codes "transport_type", c.transport_type)
      ∷ (codes "client_private_key", c.client_private_key)
      ∷ (codes "client_public_key", c.client_public_key)
      ∷ (codes "server_public_key", c.server_public_key)
      ∷ (codes "enable_killswitch", c.enable_killswitch)
      ∷ (codes "enable_dns_shield", c.enable_dns_shield)
      ∷ (codes "enable_system_proxy", c.enable_system_proxy)
      ∷ (codes "local_proxy_port", c.local_proxy_port)
      ∷ (codes "dns_servers", c.dns_servers)
      ∷ (codes "mtu", c.mtu)
      ∷ []))

unfoldable pub save_to_file : Text → ClientConfig → JsonFiles → JsonFiles
save_to_file path c files = save_json path (config_dict c) files

loaded-config_dict : (c : ClientConfig) → loaded (config_dict c) ≡ ok c
unfolding config_dict new_config known_keys or_default lookup has
loaded-config_dict c = refl

-- What the text of a configuration keeps of its fields.
abbrev reread_config : ClientConfig → ClientConfig
reread_config c = record {
  server_host = reread c.server_host;
  udp_port = reread c.udp_port;
  stealth_port = reread c.stealth_port;
  transport_type = reread c.transport_type;
  client_private_key = reread c.client_private_key;
  client_public_key = reread c.client_public_key;
  server_public_key = reread c.server_public_key;
  enable_killswitch = reread c.enable_killswitch;
  enable_dns_shield = reread c.enable_dns_shield;
  enable_system_proxy = reread c.enable_system_proxy;
  local_proxy_port = reread c.local_proxy_port;
  dns_servers = reread c.dns_servers;
  mtu = reread c.mtu;
}

reread-config_dict : (c : ClientConfig) → reread (config_dict c) ≡ config_dict (reread_config c)
unfolding config_dict reread reread_text insert
reread-config_dict c = refl

-- A client configuration, whatever its fields hold, is read back from the file that it is saved to
-- with each field as JSON text keeps it.
pub client_config_read_back :
    (path : Text) (c : ClientConfig) (files : JsonFiles)
    → load_from_file path (save_to_file path c files) ≡ ok (reread_config c)
unfolding load_from_file save_to_file
client_config_read_back path c files = rw (
  load_json-save_json path (config_dict c) files,
  reread-config_dict c,
  loaded-config_dict (reread_config c),
)
