-- ===== src/Tests/System.antt =====
-- The kill switch and the routes on machines that keep their rules and routes in a list and a
-- table.
use shin_vpn.Prelude.{
  List, [], ◌∷◌, ◌++◌, Bool, true, false, not, ◌||◌, if◌then◌else◌, none, some, Result, ok, All,
  ◌≡◌, refl, sym, ap, ◌∙◌, inl, inr, arith, length, length-append, drop, bytes_eq, bytes_eq→eq,
  Bool-cases,
}
use shin_vpn.Prelude.Exec.{Exec}
use shin_vpn.Prelude.Utf8.{Text, codes}
use shin_vpn.Prelude.Decimal.{split, has_char, split-append, split-last}
use shin_vpn.Prelude.Search.{starts_with}
use shin_vpn.Prelude.Int.{pos, show_int, show_nat, decimal_digits}
use shin_vpn.Tunnel.Shell.{run_all}
use shin_vpn.Tunnel.KillSwitch
use shin_vpn.Tunnel.KillSwitch.{KillSwitch, server_rule, enable_linux_commands}
use shin_vpn.Tunnel.KillSwitch.Iptables.{
  Iptables, verdict, any_matches, are_new, has_rule, or_else, without_first, append_command,
  delete_command,
}
use shin_vpn.Tunnel.KillSwitch.Rules.{
  exceptions, linux_rules, with_active, around, enable-passes, disable-enable,
}
use shin_vpn.Tunnel.KillSwitch.Answers.{returned, enable-answer}
use shin_vpn.Tunnel.Routing
use shin_vpn.Tunnel.Routing.{Route, RouteManager}
use shin_vpn.Tunnel.Routing.Table.{
  IpRoute, Table, with_route, without_route, route_text, AreAddresses,
}
use shin_vpn.Tunnel.Routing.Restored.{linux_routes, restore_routes-setup_routes}
use shin_vpn.Tunnel.DnsShield.{new_dns_shield, enable_commands}

-- A chain of rules, as text.
unfoldable run_iptables : Text → Exec (List Text) Unit
unfolding starts_with without_first
run_iptables cmd chain =
    if starts_with cmd (codes "iptables -A OUTPUT ")
    then (chain ++ (drop 19 cmd ∷ []), ok tt)
    else if starts_with cmd (codes "iptables -D OUTPUT ")
    then (without_first (drop 19 cmd) chain, ok tt)
    else (chain, ok tt)

run-append :
    (s : List Text) (r : Text)
    → ((run_iptables (append_command r) s).1 ≡ ok tt)
      × ((run_iptables (append_command r) s).0 ≡ s ++ (r ∷ []))
unfolding run_iptables starts_with
run-append s r = (refl, refl)

run-delete :
    (s : List Text) (r : Text)
    → ((run_iptables (delete_command r) s).1 ≡ ok tt)
      × ((run_iptables (delete_command r) s).0 ≡ without_first r s)
unfolding run_iptables starts_with
run-delete s r = (refl, refl)

abbrev is_drop : Text → Bool
is_drop r = bytes_eq r (codes "-j DROP")

accepts-accept : (t : Text) → not (is_drop (t ++ codes " -j ACCEPT")) ≡ true
accepts-accept t = elim (Bool-cases (is_drop (t ++ codes " -j ACCEPT"))) [
  | inl e ↦
      let same = ap length (bytes_eq→eq (t ++ codes " -j ACCEPT") (codes "-j DROP") e) in
      let long = length-append t (codes " -j ACCEPT") in absurd (omega arith)
  | inr e ↦ rw e
]

-- A packet is named by the rule that is for it.
abbrev chain_machine : Iptables run_iptables
chain_machine = record {
  Packet = Text;
  policy = true;
  chain = λ s. s;
  is_rule = λ r. true;
  matches = λ r p. is_drop r || bytes_eq r p;
  accepts = λ r. not (is_drop r);
  passes =
      λ s p. or_else (verdict (λ r q. is_drop r || bytes_eq r q) (λ r. not (is_drop r)) s p) true;
  run-append = λ s r h. run-append s r;
  run-delete = λ s r h. run-delete s r;
  passes-chain = λ s p. refl;
  accepts-accept = accepts-accept;
  accepts-drop = refl;
  matches-drop = λ p. refl;
}

abbrev switch : KillSwitch
switch = record {
  server_ip = codes "203.0.113.7";
  server_port = pos 51820;
  adapter_name = codes "ShinVPN_Adapter";
  is_active = false;
}

-- The rule that was there before the switch.
abbrev before : List Text
before = codes "-p icmp -j ACCEPT" ∷ []

switch-Rules : KillSwitch.Iptables.Rules chain_machine (linux_rules switch)
unfolding linux_rules exceptions
switch-Rules = (refl, (refl, (refl, (refl, (refl, (refl, tt))))))

-- A packet to elsewhere is dropped.
enable-passes_example :
    chain_machine.passes
      (KillSwitch.enable run_iptables (codes "Linux") (around switch false before)).0.system
      (codes "-d 8.8.8.8 -j ACCEPT")
    ≡ false
unfolding verdict any_matches exceptions server_rule
enable-passes_example =
    enable-passes run_iptables chain_machine switch before (codes "-d 8.8.8.8 -j ACCEPT")
      switch-Rules

are_new_example : are_new before (linux_rules switch) ≡ true
unfolding are_new has_rule linux_rules exceptions server_rule show_int show_nat decimal_digits
are_new_example = refl

disable-enable_example :
    let w = (KillSwitch.enable run_iptables (codes "Linux") (around switch false before)).0 in
    ((KillSwitch.disable run_iptables (codes "Linux") w).1 ≡ ok tt)
    × ((KillSwitch.disable run_iptables (codes "Linux") w).0.self ≡ with_active false switch)
    × ((KillSwitch.disable run_iptables (codes "Linux") w).0.system ≡ before)
disable-enable_example =
    disable-enable run_iptables chain_machine switch before switch-Rules are_new_example

-- A machine where every command fails, which raises nothing: the switch is on, and no rule is.
abbrev run_unprivileged : Text → Exec (List Text) Unit
run_unprivileged cmd chain = (chain, ok tt)

enable-answer_example :
    let w = around switch false before in
    let out = KillSwitch.enable run_unprivileged (codes "Linux") w in
    (out.1 ≡ ok true) × (out.0.self.is_active ≡ true)
unfolding returned run_all enable_linux_commands
enable-answer_example = enable-answer run_unprivileged switch before

-- The shield names two servers to Windows, and does nothing elsewhere.
dns_commands :
    enable_commands (new_dns_shield none (codes "shin0"))
    ≡ some (
        codes "netsh interface ip set dns name=\"shin0\" static 1.1.1.1"
        ∷ codes "netsh interface ip add dns name=\"shin0\" 1.0.0.1 index=2"
        ∷ [])
unfolding enable_commands new_dns_shield
dns_commands = refl

-- `ip route`, read word by word.
unfoldable interpret : List Text → Table → Table
unfolding with_route without_route
interpret (ip ∷ noun ∷ verb ∷ dest ∷ via ∷ gateway ∷ []) t =
    let r : Route = record { dest = dest; mask = []; gateway = gateway } in
    if bytes_eq verb (codes "add") then with_route r t else without_route r t
interpret words t = t

abbrev run_ip : Text → Exec Table Unit
run_ip cmd t = (interpret (split b' ' cmd) t, ok tt)

is_word : Text → Bool
is_word t = not (has_char b' ' t)

split-route :
    (d g : Text)
    → is_word d ≡ true
    → is_word g ≡ true
    → split b' ' (d ++ (codes " via " ++ g)) ≡ d ∷ codes "via" ∷ g ∷ []
unfolding is_word split
split-route d g hd hg =
    rw (split-append b' ' d (codes "via " ++ g) (ground arith), split-last b' ' g (ground arith))

run-add :
    (t : Table) (r : Route)
    → is_word r.dest ≡ true
    → is_word r.gateway ≡ true
    → (run_ip (codes "ip route add " ++ route_text r) t).0 ≡ with_route r t
unfolding interpret split with_route
run-add t r hd hg = rw (split-route r.dest r.gateway hd hg)

run-del :
    (t : Table) (r : Route)
    → is_word r.dest ≡ true
    → is_word r.gateway ≡ true
    → (run_ip (codes "ip route del " ++ route_text r) t).0 ≡ without_route r t
unfolding interpret split without_route
run-del t r hd hg = rw (split-route r.dest r.gateway hd hg)

abbrev table_machine : IpRoute run_ip
table_machine = record {
  table = λ s. s;
  is_address = is_word;
  run-add = run-add;
  run-del = run-del;
}

abbrev manager : RouteManager
manager = Routing.new_route_manager (codes "203.0.113.7") (codes "10.8.0.1") (codes "shin0")

abbrev check_output : Text → Result Text
check_output cmd = ok (codes "default via 192.168.1.1 dev eth0")

gateway_found :
    Routing.get_default_gateway (codes "Linux") check_output ≡ some (codes "192.168.1.1")
unfolding Routing.get_default_gateway Routing.after_via Routing.words Routing.fields
gateway_found = refl

-- The one route before is the default one.
abbrev table_before : Table
table_before d = if bytes_eq d (codes "default") then some (codes "192.168.1.1") else none

found_is_address :
    (g : Text)
    → Routing.get_default_gateway (codes "Linux") check_output ≡ some g
    → AreAddresses run_ip table_machine (linux_routes manager g)
unfolding linux_routes is_word Routing.new_route_manager
found_is_address g h =
    let same : some (codes "192.168.1.1") ≡ some g = sym gateway_found ∙ h in
    let found : g ≡ codes "192.168.1.1" = cc in
    ((refl, rw found), ((refl, refl), ((refl, refl), tt)))

no_routes : manager.routes_added ≡ []
unfolding Routing.new_route_manager
no_routes = refl

no_such_routes : All (λ r. table_before r.dest ≡ none) (linux_routes manager [])
unfolding linux_routes Routing.new_route_manager
no_such_routes = (refl, (refl, (refl, tt)))

restore_routes-setup_routes_example :
    let w =
      (Routing.setup_routes run_ip
        (codes "Linux")
        check_output
        (record { self = manager; system = table_before })).0 in
    let out = Routing.restore_routes run_ip (codes "Linux") w in
    (out.1 ≡ ok tt) × (out.0.self.routes_added ≡ []) × (out.0.system ≡ table_before)
restore_routes-setup_routes_example =
    restore_routes-setup_routes run_ip table_machine manager table_before check_output no_routes
      found_is_address no_such_routes
