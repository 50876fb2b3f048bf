-- ===== src/Tunnel/KillSwitch/Rules.antt =====
-- What the kill switch of shinvpn/tunnel/killswitch.py lets out on Linux, and that it leaves the
-- firewall as it was.
use shin_vpn.Prelude.{
  List, [], ◌∷◌, ◌++◌, Bool, true, false, Result, ok, err, ◌≡◌, refl, ap, sym, ◌∙◌, map, reverse,
  All, All-reverse,
}
use mathlib.Core.Path.{subst}
use mathlib.Core.List.{append_assoc}
use shin_vpn.Prelude.Exec.{Exec, pure, continue, rescued}
use shin_vpn.Prelude.Utf8.{Text, codes}
use shin_vpn.Prelude.Int.{show_int}
use shin_vpn.Tunnel.Shell.{World, run_all}
use shin_vpn.Tunnel.KillSwitch.{
  KillSwitch, server_rule, enable_linux_commands, disable_linux_commands, enable_linux,
  disable_linux, enable, disable,
}
use shin_vpn.Tunnel.KillSwitch.Iptables.{
  Iptables, Rules, Leaves, verdict, any_matches, are_new, or_else, append_command, delete_command,
  without_all, or_else-verdict, without_all-reverse, run_all-append, run_all-delete,
}

-- What may pass in spite of the switch: loopback, two private networks, UDP to the server's port,
-- and the tunnel.
unfoldable pub exceptions : KillSwitch → List Text
exceptions k =
    codes "-o lo -j ACCEPT"
    ∷ codes "-d 192.168.0.0/16 -j ACCEPT"
    ∷ codes "-d 10.0.0.0/8 -j ACCEPT"
    ∷ server_rule k
    ∷ codes "-o shin+ -j ACCEPT"
    ∷ []

unfoldable pub linux_rules : KillSwitch → List Text
unfolding exceptions
linux_rules k = exceptions k ++ (codes "-j DROP" ∷ [])

abbrev pub with_active : Bool → KillSwitch → KillSwitch
with_active b k = record k { is_active = b }

enable_linux_commands-map :
    (b : Bool) (k : KillSwitch)
    → enable_linux_commands (with_active b k) ≡ map append_command (linux_rules k)
unfolding enable_linux_commands linux_rules exceptions server_rule
enable_linux_commands-map b k = refl

disable_linux_commands-map :
    (b : Bool) (k : KillSwitch)
    → disable_linux_commands (with_active b k) ≡ map delete_command (reverse (linux_rules k))
unfolding disable_linux_commands linux_rules exceptions server_rule
disable_linux_commands-map b k = refl

rescued-ok :
    {O : Type 0} {A : Type 0} (x : O × Result Unit) (a : A) (handler : Exec O A)
    → x.1 ≡ ok tt
    → rescued (continue x (λ _. pure a)) handler ≡ (x.0, ok a)
rescued-ok (w, ok u) a handler h = refl
rescued-ok (w, err e) a handler h = absurd (cc)

rescued-done :
    {O : Type 0} (x : O × Result Unit) (handler : Exec O Unit)
    → x.1 ≡ ok tt
    → rescued x handler ≡ (x.0, ok tt)
rescued-done (w, ok u) handler h = refl
rescued-done (w, err e) handler h = absurd (cc)

module _ {S : Type 0} (run : Text → Exec S Unit) where
  enable_linux_of_ok :
      (w : World KillSwitch S)
      → (run_all run (enable_linux_commands w.self) w).1 ≡ ok tt
      → enable_linux run w ≡ ((run_all run (enable_linux_commands w.self) w).0, ok true)
  unfolding enable_linux
  enable_linux_of_ok w h = rescued-ok (run_all run (enable_linux_commands w.self) w) true _ h

  disable_linux_of_ok :
      (w : World KillSwitch S)
      → (run_all run (disable_linux_commands w.self) w).1 ≡ ok tt
      → disable_linux run w ≡ ((run_all run (disable_linux_commands w.self) w).0, ok tt)
  unfolding disable_linux
  disable_linux_of_ok w h = rescued-done (run_all run (disable_linux_commands w.self) w) _ h

-- The world that the switch is in.
abbrev pub around : {S : Type 0} → KillSwitch → Bool → S → World KillSwitch S
around k b s = record { self = with_active b k; system = s }

module _ {S : Type 0} (run : Text → Exec S Unit) (t : Iptables run) (k : KillSwitch) where
  server_rule-accepts : t.accepts (server_rule k) ≡ true
  unfolding server_rule
  server_rule-accepts =
      ap t.accepts (
        sym (
          ap (λ x. codes "-d " ++ x)
            (append_assoc k.server_ip (codes " -p udp --dport " ++ show_int k.server_port) _)))
      ∙ t.accepts-accept
          (codes "-d " ++ (k.server_ip ++ (codes " -p udp --dport " ++ show_int k.server_port)))

  exceptions-accept : All (λ r. t.accepts r ≡ true) (exceptions k)
  unfolding exceptions
  exceptions-accept = (
    t.accepts-accept (codes "-o lo"),
    (
      t.accepts-accept (codes "-d 192.168.0.0/16"),
      (
        t.accepts-accept (codes "-d 10.0.0.0/8"),
        (server_rule-accepts, (t.accepts-accept (codes "-o shin+"), tt)),
      ),
    ),
  )

  enabling :
      (s : S)
      → Rules t (linux_rules k)
      → Leaves run t
          (t.chain s ++ linux_rules k)
          (run_all run (enable_linux_commands (with_active false k)))
          (around k false s)
  enabling s h =
      rw (enable_linux_commands-map false k)
        (run_all-append run t (linux_rules k) (around k false s) h)

  enable-ran :
      (s : S)
      → Rules t (linux_rules k)
      → ((enable run (codes "Linux") (around k false s)).1 ≡ ok true)
        × ((enable run (codes "Linux") (around k false s)).0.self ≡ with_active true k)
        × (t.chain (enable run (codes "Linux") (around k false s)).0.system
            ≡ t.chain s ++ linux_rules k)
  unfolding enable
  enable-ran s h =
      let ran = enabling s h in
      rw (enable_linux_of_ok run (around k false s) ran.0)
        (refl, ap (with_active true) ran.1, ran.2)

  -- After the switch has been turned on, on Linux and where its commands succeed, a packet that an
  -- earlier rule matches is decided by that rule, and any other packet passes only if one of the
  -- five exceptions matches it: loopback, 192.168.0.0/16, 10.0.0.0/8, UDP to the server's port, and
  -- the tunnel. The network 172.16.0.0/12, which docs/ARCHITECTURE.md lists too, is not among them.
  pub enable-passes :
      (s : S) (p : t.Packet)
      → Rules t (linux_rules k)
      → t.passes (enable run (codes "Linux") (around k false s)).0.system p
        ≡ or_else
            (verdict t.matches t.accepts (t.chain s) p)
            (any_matches t.matches (exceptions k) p)
  unfolding linux_rules
  enable-passes s p h =
      rw (t.passes-chain _ p, (enable-ran s h).2)
        (or_else-verdict t.matches t.accepts p t.policy (t.chain s) (exceptions k) _
          exceptions-accept t.accepts-drop (t.matches-drop p))

  disabling :
      (s : S)
      → Rules t (linux_rules k)
      → Leaves run t
          (without_all (reverse (linux_rules k)) (t.chain s))
          (run_all run (disable_linux_commands (with_active true k)))
          (around k true s)
  disabling s h = rw (disable_linux_commands-map true k) (
      run_all-delete run t (reverse (linux_rules k)) (around k true s)
        (All-reverse _ (linux_rules k) h))

  disable-ran :
      (s : S)
      → Rules t (linux_rules k)
      → ((disable run (codes "Linux") (around k true s)).1 ≡ ok tt)
        × ((disable run (codes "Linux") (around k true s)).0.self ≡ with_active false k)
        × (t.chain (disable run (codes "Linux") (around k true s)).0.system
            ≡ without_all (reverse (linux_rules k)) (t.chain s))
  unfolding disable
  disable-ran s h =
      let ran = disabling s h in
      rw (disable_linux_of_ok run (around k true s) ran.0)
        (refl, ap (with_active false) ran.1, ran.2)

  -- Turned on and then off again, on Linux and where the commands succeed, the switch leaves the
  -- chain as it was, unless one of its rules was in the chain before, or is there twice.
  pub disable-enable :
      (s : S)
      → Rules t (linux_rules k)
      → are_new (t.chain s) (linux_rules k) ≡ true
      → let w = (enable run (codes "Linux") (around k false s)).0 in
        ((disable run (codes "Linux") w).1 ≡ ok tt)
        × ((disable run (codes "Linux") w).0.self ≡ with_active false k)
        × (t.chain (disable run (codes "Linux") w).0.system ≡ t.chain s)
  disable-enable s h new =
      let on = enable-ran s h in
      let s' = (enable run (codes "Linux") (around k false s)).0.system in
      let off = disable-ran s' h in
      subst
        (λ k'.
          let w : World KillSwitch S = record { self = k'; system = s' } in
          ((disable run (codes "Linux") w).1 ≡ ok tt)
          × ((disable run (codes "Linux") w).0.self ≡ with_active false k)
          × (t.chain (disable run (codes "Linux") w).0.system ≡ t.chain s))
        (sym on.1)
        (
          off.0,
          off.1,
          off.2
              ∙ (ap (without_all (reverse (linux_rules k))) on.2
                  ∙ without_all-reverse (linux_rules k) (t.chain s) new),
        )
