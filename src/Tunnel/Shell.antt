-- ===== src/Tunnel/Shell.antt =====
-- What the modules of shinvpn/tunnel that give commands to the operating system call: `subprocess`
-- and `platform`. The system is a state, of any type; a command changes it, or cannot be started
-- and raises. With check=False a command that fails is one that returns.
use shin_vpn.Prelude.{List, [], ◌∷◌, Bool, bytes_eq}
use shin_vpn.Prelude.Exec.{Exec, pure, ◌>>◌}
use shin_vpn.Prelude.Utf8.{Text, codes}

-- An object and the system around it.
pub record World (O S : Type 0) : Type 0 where
  pub self : O
  pub system : S

module _ {O S : Type 0} where
  -- subprocess.run(cmd, shell=True, check=False)
  abbrev pub run_cmd : (Text → Exec S Unit) → Text → Exec (World O S) Unit
  run_cmd run cmd w = (record w { system = (run cmd w.system).0 }, (run cmd w.system).1)

  unfoldable pub run_all : (Text → Exec S Unit) → List Text → Exec (World O S) Unit
  run_all run [] = pure tt
  run_all run (c ∷ cs) = run_cmd run c >> run_all run cs

abbrev pub is_windows : Text → Bool
is_windows platform = bytes_eq platform (codes "Windows")

abbrev pub is_linux : Text → Bool
is_linux platform = bytes_eq platform (codes "Linux")
