-- ===== src/Tunnel/DnsShield.antt =====
-- `DNSShield` of shinvpn/tunnel/dns_shield.py.
use shin_vpn.Prelude.{
  List, [], ◌∷◌, ◌++◌, Bool, true, false, not, ◌||◌, if◌then◌else◌, Option, none, some, ok, err,
  index_error,
}
use shin_vpn.Prelude.Exec.{Exec, pure, modify, rescue, ◌>>◌}
use shin_vpn.Prelude.Utf8.{Text, codes}
use shin_vpn.Tunnel.Shell.{World, run_all, is_windows}

pub record DnsShield : Type 0 where
  pub dns_servers : List Text
  pub adapter_name : Text
  pub is_active : Bool

-- dns_servers or ["1.1.1.1", "1.0.0.1"]
abbrev pub or_default : Option (List Text) → List Text
or_default none = codes "1.1.1.1" ∷ codes "1.0.0.1" ∷ []
or_default (some []) = codes "1.1.1.1" ∷ codes "1.0.0.1" ∷ []
or_default (some (d ∷ ds)) = d ∷ ds

unfoldable pub new_dns_shield : Option (List Text) → Text → DnsShield
new_dns_shield dns_servers adapter_name = record {
  dns_servers = or_default dns_servers;
  adapter_name = adapter_name;
  is_active = false;
}

abbrev pub cmd_primary : Text → Text → Text
cmd_primary adapter_name dns =
    codes "netsh interface ip set dns name=\"" ++ (adapter_name ++ (codes "\" static " ++ dns))

abbrev pub cmd_secondary : Text → Text → Text
cmd_secondary adapter_name dns =
    codes "netsh interface ip add dns name=\""
    ++ (adapter_name ++ (codes "\" " ++ (dns ++ codes " index=2")))

abbrev pub disable_command : Text → Text
disable_command adapter_name =
    codes "netsh interface ip set dns name=\"" ++ (adapter_name ++ codes "\" dhcp")

-- Two servers are used. Without one, dns_servers[0] raises.
unfoldable pub enable_commands : DnsShield → Option (List Text)
enable_commands d = elim d.dns_servers [
  | [] ↦ none
  | primary ∷ [] ↦ some (cmd_primary d.adapter_name primary ∷ [])
  | primary ∷ secondary ∷ others ↦
      some (cmd_primary d.adapter_name primary ∷ cmd_secondary d.adapter_name secondary ∷ [])
]

module _ {S : Type 0} (run : Text → Exec S Unit) where
  abbrev set_active : Bool → Exec (World DnsShield S) Unit
  set_active b = modify (λ w. record w { self = record w.self { is_active = b } })

  unfoldable pub run_enable : Exec (World DnsShield S) Unit
  unfolding enable_commands
  run_enable w = elim (enable_commands w.self) [
    | none ↦ (w, err index_error)
    | some commands ↦ run_all run commands w
  ]

  unfoldable pub enable : Text → Exec (World DnsShield S) Bool
  unfolding run_enable
  enable platform w =
      if is_windows platform
      then rescue (run_enable >> (set_active true >> pure true)) (pure false) w
      else (w, ok true)

  unfoldable pub disable : Text → Exec (World DnsShield S) Unit
  disable platform w =
      if not w.self.is_active || not (is_windows platform)
      then (w, ok tt)
      else rescue (run_all run (disable_command w.self.adapter_name ∷ []) >> set_active false)
          (pure tt) w
