-- ===== src/Tunnel/KillSwitch.antt =====
-- `KillSwitch` of shinvpn/tunnel/killswitch.py: the commands that it gives to the firewall, in
-- their order.
pub mod Iptables
pub mod Rules
pub mod Answers
use shin_vpn.Prelude.{List, [], ◌∷◌, ◌++◌, Bool, true, false, if◌then◌else◌, ok}
use shin_vpn.Prelude.Exec.{Exec, pure, gets, modify, rescue, ◌>>=◌, ◌>>◌}
use shin_vpn.Prelude.Utf8.{Text, codes}
use shin_vpn.Prelude.Int.{ℤ, show_int}
use shin_vpn.Tunnel.Shell.{World, run_all, is_windows, is_linux}

pub record KillSwitch : Type 0 where
  pub server_ip : Text
  pub server_port : ℤ
  pub adapter_name : Text
  pub is_active : Bool

unfoldable pub new_kill_switch : Text → ℤ → Text → KillSwitch
new_kill_switch server_ip server_port adapter_name = record {
  server_ip = server_ip;
  server_port = server_port;
  adapter_name = adapter_name;
  is_active = false;
}

abbrev pub rule_prefix : Text
rule_prefix = codes "ShinVPN_KillSwitch_"

abbrev add_rule : Text → Text → Text
add_rule name rest =
    codes "netsh advfirewall firewall add rule name=\""
    ++ (rule_prefix ++ (name ++ (codes "\" dir=out action=" ++ rest)))

abbrev delete_rule : Text → Text
delete_rule name =
    codes "netsh advfirewall firewall delete rule name=\"" ++ (rule_prefix ++ (name ++ codes "\""))

unfoldable pub enable_windows_commands : KillSwitch → List Text
enable_windows_commands k =
    add_rule (codes "Allow_LAN")
      (codes "allow remoteip=127.0.0.1,192.168.0.0/16,10.0.0.0/8,172.16.0.0/12")
    ∷ add_rule (codes "Allow_Server") (
        codes "allow remoteip="
        ++ (k.server_ip ++ (codes " protocol=UDP remoteport=" ++ show_int k.server_port)))
    ∷ add_rule (codes "Allow_Adapter")
        (codes "allow interface=\"" ++ (k.adapter_name ++ codes "\""))
    ∷ add_rule (codes "Block_All") (codes "block")
    ∷ []

unfoldable pub disable_windows_commands : List Text
disable_windows_commands =
    delete_rule (codes "Allow_LAN")
    ∷ delete_rule (codes "Allow_Server")
    ∷ delete_rule (codes "Allow_Adapter")
    ∷ delete_rule (codes "Block_All")
    ∷ []

unfoldable pub server_rule : KillSwitch → Text
server_rule k =
    codes "-d "
    ++ (k.server_ip ++ (codes " -p udp --dport " ++ (show_int k.server_port ++ codes " -j ACCEPT")))

unfoldable pub enable_linux_commands : KillSwitch → List Text
enable_linux_commands k =
    codes "iptables -A OUTPUT -o lo -j ACCEPT"
    ∷ codes "iptables -A OUTPUT -d 192.168.0.0/16 -j ACCEPT"
    ∷ codes "iptables -A OUTPUT -d 10.0.0.0/8 -j ACCEPT"
    ∷ (codes "iptables -A OUTPUT " ++ server_rule k)
    ∷ codes "iptables -A OUTPUT -o shin+ -j ACCEPT"
    ∷ codes "iptables -A OUTPUT -j DROP"
    ∷ []

unfoldable pub disable_linux_commands : KillSwitch → List Text
disable_linux_commands k =
    codes "iptables -D OUTPUT -j DROP"
    ∷ codes "iptables -D OUTPUT -o shin+ -j ACCEPT"
    ∷ (codes "iptables -D OUTPUT " ++ server_rule k)
    ∷ codes "iptables -D OUTPUT -d 10.0.0.0/8 -j ACCEPT"
    ∷ codes "iptables -D OUTPUT -d 192.168.0.0/16 -j ACCEPT"
    ∷ codes "iptables -D OUTPUT -o lo -j ACCEPT"
    ∷ []

module _ {S : Type 0} (run : Text → Exec S Unit) where
  abbrev pub active : Exec (World KillSwitch S) Bool
  active = gets (λ w. w.self.is_active)

  abbrev pub set_active : Bool → Exec (World KillSwitch S) Unit
  set_active b = modify (λ w. record w { self = record w.self { is_active = b } })

  unfoldable pub disable_windows : Exec (World KillSwitch S) Unit
  disable_windows = run_all run disable_windows_commands

  unfoldable pub disable_linux : Exec (World KillSwitch S) Unit
  disable_linux w = rescue (run_all run (disable_linux_commands w.self)) (pure tt) w

  unfoldable pub enable_windows : Exec (World KillSwitch S) Bool
  unfolding disable_windows
  enable_windows w =
      rescue (run_all run (enable_windows_commands w.self) >> pure true)
        (disable_windows >> pure false) w

  unfoldable pub enable_linux : Exec (World KillSwitch S) Bool
  unfolding disable_linux
  enable_linux w =
      rescue (run_all run (enable_linux_commands w.self) >> pure true) (disable_linux >> pure false)
        w

  unfoldable pub enable : Text → Exec (World KillSwitch S) Bool
  unfolding enable_windows enable_linux
  enable platform w =
      if w.self.is_active
      then (w, ok true)
      else if is_windows platform
      then (do success ← enable_windows; set_active success; pure success) w
      else if is_linux platform
      then (do success ← enable_linux; set_active success; pure success) w
      else (w, ok false)

  unfoldable pub disable : Text → Exec (World KillSwitch S) Unit
  unfolding disable_windows disable_linux
  disable platform w =
      if w.self.is_active
      then (if is_windows platform
          then (disable_windows >> set_active false) w
          else if is_linux platform
          then (disable_linux >> set_active false) w
          else set_active false w)
      else (w, ok tt)
