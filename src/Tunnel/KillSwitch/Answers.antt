-- ===== src/Tunnel/KillSwitch/Answers.antt =====
-- What `KillSwitch.enable` of shinvpn/tunnel/killswitch.py answers, whatever the commands do.
use shin_vpn.Prelude.{Bool, true, false, Result, ok, err, ◌≡◌, refl}
use shin_vpn.Prelude.Exec.{Exec, pure, continue, rescued, ◌>>◌}
use shin_vpn.Prelude.Utf8.{Text, codes}
use shin_vpn.Tunnel.Shell.{World, run_all}
use shin_vpn.Tunnel.KillSwitch.{
  KillSwitch, enable_linux_commands, disable_linux, enable_linux, enable, set_active,
}
use shin_vpn.Tunnel.KillSwitch.Rules.{with_active}

unfoldable pub returned : {A : Type 0} → Result A → Bool
returned (ok a) = true
returned (err e) = false

rescued-returns : {O : Type 0} (x : O × Result Unit) → (rescued x (pure tt)).1 ≡ ok tt
rescued-returns (w, ok u) = refl
rescued-returns (w, err e) = refl

disable_linux-returns :
    {S : Type 0} (run : Text → Exec S Unit) (w : World KillSwitch S)
    → (disable_linux run w).1 ≡ ok tt
unfolding disable_linux
disable_linux-returns run w = rescued-returns _

-- A method that answers true, or after an exception runs a handler that returns and answers false.
tried :
    {O : Type 0} (x : O × Result Unit) (handler : Exec O Unit)
    → ((w : O) → (handler w).1 ≡ ok tt)
    → (rescued (continue x (λ _. pure true)) (handler >> pure false)).1 ≡ ok (returned x.1)
unfolding returned
tried (w, ok u) handler h = refl
tried (w, err e) handler h = rw (h w)

recorded :
    {S : Type 0} (run : Text → Exec S Unit) (x : World KillSwitch S × Result Bool) (b : Bool)
    → x.1 ≡ ok b
    → let y = continue x (λ success. set_active run success >> pure success) in
      (y.1 ≡ ok b) × (y.0.self.is_active ≡ b)
recorded run (w, r) b h = rw h (refl, refl)

-- On Linux, turning the switch on never raises, and both its answer and `is_active` say whether
-- every command could be started: a command that is started and fails counts as done.
pub enable-answer :
    {S : Type 0} (run : Text → Exec S Unit) (k : KillSwitch) (s : S)
    → let w : World KillSwitch S = record { self = with_active false k; system = s } in
      let out = enable run (codes "Linux") w in
      let started = returned (run_all run (enable_linux_commands w.self) w).1 in
      (out.1 ≡ ok started) × (out.0.self.is_active ≡ started)
unfolding enable enable_linux
enable-answer {S} run k s =
    let w : World KillSwitch S = record { self = with_active false k; system = s } in
    recorded run _ _ (
      tried (run_all run (enable_linux_commands w.self) w) (disable_linux run)
        (disable_linux-returns run))
