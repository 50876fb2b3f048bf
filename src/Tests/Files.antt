-- ===== src/Tests/Files.antt =====
-- Key files, configurations and profiles on small inputs.
use shin_vpn.Prelude.{
  [], ◌∷◌, true, false, none, some, ok, ◌≡◌, refl, replicate, bytes_eq, arith, Bytes, ◌+◌, ◌*◌, ◌^◌,
}
use shin_vpn.Prelude.Utf8.{codes}
use shin_vpn.Prelude.Base64.{b64encode, symbol}
use shin_vpn.Prelude.Int.{pos, show_nat, decimal_digits}
use shin_vpn.Prelude.Struct.{IsBytes}
use shin_vpn.Prelude.Assoc.{lookup, insert, has, Unique}
use shin_vpn.Prelude.Json.{null, str, int, boolean, float, obj, field, end, reread, reread_text}
use shin_vpn.Crypto.Keys.{KeyPair, save_to_file, load_from_file}
use shin_vpn.Crypto.Keys.Files.{saved_file, load_from_file-save_to_file}
use shin_vpn.Server.Config
use shin_vpn.Server.Config.{ServerConfig, AllowedPeer, default_dns_servers}
use shin_vpn.Server.Config.Saved.{reread_config, config_read_back}
use shin_vpn.Crypto.Profiles.{
  DeviceProfile, ProfileManager, new_profile, create_profile, delete_profile,
}
use shin_vpn.Crypto.Profiles.Addresses.{address_given_twice}
use shin_vpn.Tests.Toys.{toy_primitives}

-- base64.b64encode(b"Shin")
encoded : b64encode (codes "Shin") ≡ codes "U2hpbg=="
unfolding b64encode symbol
encoded = refl

abbrev private_key : Bytes
private_key = replicate 32 7

abbrev pair : KeyPair
pair = record { private_key = private_key; public_key = toy_primitives.public_key private_key }

pair_is_bytes : IsBytes private_key
pair_is_bytes = omega arith

saved_example :
    (load_from_file toy_primitives
        (codes "id")
        (save_to_file true 420 pair (codes "id") (some (codes "id.pub")) [])
      ≡ ok pair)
    × (lookup bytes_eq
          (codes "id")
          (save_to_file true 420 pair (codes "id") (some (codes "id.pub")) [])
        ≡ some (saved_file true 420 pair (codes "id") [] pair_is_bytes))
saved_example =
    load_from_file-save_to_file true 420 pair (codes "id") [] pair_is_bytes toy_primitives
      (some (codes "id.pub")) refl refl refl

abbrev config : ServerConfig
config = record {
  listen_host = str (codes "0.0.0.0");
  udp_port = int (pos 51820);
  stealth_port = int (pos 8443);
  enable_stealth = boolean true;
  private_key = str (codes "k");
  public_key = str (codes "p");
  virtual_subnet = str (codes "10.8.0.0/24");
  server_virtual_ip = str (codes "10.8.0.1");
  dns_servers = default_dns_servers;
  mtu = int (pos 1420);
  allowed_peers =
      record { name = str (codes "phone"); public_key = str (codes "q"); allowed_ip = null } ∷ [];
}

config_example :
    Config.load_from_file
      (codes "server.json")
      (Config.save_to_file (codes "server.json") config [])
    ≡ ok (reread_config config)
config_example = config_read_back (codes "server.json") config []

-- Nothing of this one is lost.
config_kept : reread_config config ≡ config
unfolding reread reread_text
config_kept = refl

-- Two surrogates in a row are read as the code point that they stand for, and one alone stays.
surrogates_joined :
    reread (str (120 ∷ 55357 ∷ 55357 ∷ 56832 ∷ [])) ≡ str (120 ∷ 55357 ∷ 128512 ∷ [])
unfolding reread reread_text
surrogates_joined = refl

-- An infinity is kept, and a NaN with another pattern is not.
floats_read :
    (reread (float (2047 * 2 ^ 52)) ≡ float (2047 * 2 ^ 52))
    × (reread (float (2047 * 2 ^ 52 + 1)) ≡ float (2047 * 2 ^ 52 + 2 ^ 51))
unfolding reread
floats_read = (refl, refl)

-- Of two values of a name the last one stays.
name_kept_once :
    reread
      (obj (field (codes "a") null (field (codes "b") null (field (codes "a") (boolean true) end))))
    ≡ obj (field (codes "a") (boolean true) (field (codes "b") null end))
unfolding reread reread_text insert
name_kept_once = refl

-- A profile `old`, then a profile `b`; `old` is deleted, and `c` is created.
abbrev old : DeviceProfile
old = record {
  id = codes "dev_9_1";
  name = codes "phone";
  device_type = codes "phone";
  private_key = [];
  public_key = [];
  allocated_vip = codes "10.8.0.2";
  created_at = 0;
  bytes_consumed = 0;
  last_connected = 0;
}

abbrev manager : ProfileManager
manager = record { profiles = (codes "dev_9_1", old) ∷ []; profiles_file = none; writable = true }

second_id : (new_profile (codes "b") (codes "laptop") pair 12 0 manager).id ≡ codes "dev_12_2"
unfolding new_profile show_nat decimal_digits
second_id = refl

manager_unique : Unique bytes_eq manager.profiles
unfolding has
manager_unique = (refl, tt)

manager_has : has bytes_eq (codes "dev_9_1") manager.profiles ≡ true
unfolding has
manager_has = refl

second_is_new :
    has bytes_eq (new_profile (codes "b") (codes "laptop") pair 12 0 manager).id manager.profiles
    ≡ false
unfolding has new_profile show_nat decimal_digits
second_is_new = refl

twice_example :
    let b = new_profile (codes "b") (codes "laptop") pair 12 0 manager in
    let created =
      create_profile (codes "b") (codes "laptop") (codes "s.json") pair 12 0 manager [] in
    let kept = (delete_profile (codes "dev_9_1") created.0).0 in
    let c =
      (create_profile (codes "c") (codes "tablet") (codes "s.json") pair 15 0 kept created.1).2 in
    (lookup bytes_eq b.id kept.profiles ≡ some b) × (c.allocated_vip ≡ b.allocated_vip)
twice_example =
    address_given_twice manager [] (codes "s.json") (codes "dev_9_1") (codes "b") (codes "c")
      (codes "laptop") (codes "tablet") pair pair 12 15 0 0 manager_unique manager_has second_is_new
