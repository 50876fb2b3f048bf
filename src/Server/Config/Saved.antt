-- ===== src/Server/Config/Saved.antt =====
-- A server configuration is read back from its file as JSON text keeps it.
use shin_vpn.Prelude.{List, [], ◌∷◌, ok, ◌≡◌, refl, ap}
use shin_vpn.Prelude.Utf8.{Text}
use shin_vpn.Prelude.Json.{
  JsonFiles, cons, reread, reread_text, reread_items, of_items, to_items, of_items-to_items,
  load_json-save_json, known_keys, or_default, required,
}
use shin_vpn.Prelude.Assoc.{lookup, insert, has, erase}
use shin_vpn.Server.Config.{
  AllowedPeer, ServerConfig, new_peer, peer_of, peers_of_items, new_config, loaded, load_from_file,
  peer_dict, peer_dicts, config_dict, save_to_file,
}

peer_of-peer_dict : (p : AllowedPeer) → peer_of (peer_dict p) ≡ ok p
unfolding new_peer known_keys required or_default lookup has
peer_of-peer_dict p = refl

peers_of_items-peer_dicts : (ps : List AllowedPeer) → peers_of_items (peer_dicts ps) ≡ ok ps
unfolding peers_of_items
peers_of_items-peer_dicts [] = refl
peers_of_items-peer_dicts (p ∷ ps) = rw (peer_of-peer_dict p, peers_of_items-peer_dicts ps)

peers_of-peer_dicts :
    (ps : List AllowedPeer) → peers_of_items (of_items (to_items (peer_dicts ps))) ≡ ok ps
peers_of-peer_dicts ps = rw (of_items-to_items (peer_dicts ps)) (peers_of_items-peer_dicts ps)

-- What the text of a configuration keeps of its fields.
abbrev pub reread_peer : AllowedPeer → AllowedPeer
reread_peer p = record {
  name = reread p.name;
  public_key = reread p.public_key;
  allowed_ip = reread p.allowed_ip;
}

abbrev pub reread_peers : List AllowedPeer → List AllowedPeer
reread_peers [] = []
reread_peers (p ∷ ps) = reread_peer p ∷ reread_peers ps

abbrev pub reread_config : ServerConfig → ServerConfig
reread_config c = record {
  listen_host = reread c.listen_host;
  udp_port = reread c.udp_port;
  stealth_port = reread c.stealth_port;
  enable_stealth = reread c.enable_stealth;
  private_key = reread c.private_key;
  public_key = reread c.public_key;
  virtual_subnet = reread c.virtual_subnet;
  server_virtual_ip = reread c.server_virtual_ip;
  dns_servers = reread c.dns_servers;
  mtu = reread c.mtu;
  allowed_peers = reread_peers c.allowed_peers;
}

reread_items-peer_dicts :
    (ps : List AllowedPeer)
    → reread_items (to_items (peer_dicts ps)) ≡ to_items (peer_dicts (reread_peers ps))
unfolding reread reread_text insert
reread_items-peer_dicts [] = refl
reread_items-peer_dicts (p ∷ ps) =
    ap (cons (peer_dict (reread_peer p))) (reread_items-peer_dicts ps)

reread-config_dict : (c : ServerConfig) → reread (config_dict c) ≡ config_dict (reread_config c)
unfolding config_dict reread reread_text insert
reread-config_dict c = rw (reread_items-peer_dicts c.allowed_peers)

loaded-config_dict : (c : ServerConfig) → loaded (config_dict c) ≡ ok c
unfolding config_dict new_config known_keys or_default lookup has erase
loaded-config_dict c = rw (peers_of-peer_dicts c.allowed_peers)

-- A server configuration, whatever its fields hold and with any number of peers, is read back from
-- the file that it is saved to with each field and each peer as JSON text keeps it: as it was, save
-- that two surrogates in a row become one code point, that every NaN becomes the same one, and that
-- of the fields of one name the last stays.
pub config_read_back :
    (path : Text) (c : ServerConfig) (files : JsonFiles)
    → load_from_file path (save_to_file path c files) ≡ ok (reread_config c)
unfolding load_from_file save_to_file
config_read_back path c files = rw (
  load_json-save_json path (config_dict c) files,
  reread-config_dict c,
  loaded-config_dict (reread_config c),
)
