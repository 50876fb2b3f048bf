-- ===== src/Client/Safety.antt =====
-- A client stays protected through every event.
use shin_vpn.Prelude.{Bool, true, ◌&&◌, Result, ok, err, ◌≡◌}
use shin_vpn.Crypto.Aead.{Aead}
use shin_vpn.Crypto.Primitives.{Primitives}
use shin_vpn.Client.{ShinVpnClient, SetUp}
use shin_vpn.Client.Protection.{protected}
use shin_vpn.Client.Events.{Event, awaited}

abbrev Protects : ShinVpnClient → ShinVpnClient → Type 0
Protects c c' = protected c ≡ true → protected c' ≡ true

-- No call of `enable` answers that its switch is off. One that raises ends the attempt to connect.
unfoldable pub answers_yes : Result Bool → Bool
answers_yes (ok b) = b
answers_yes (err e) = true

abbrev pub switched_on : SetUp → Bool
switched_on su = answers_yes su.killswitch_enabled && su.dns_shield_enabled

-- No answer of this event says that a switch is off.
abbrev pub engages : Event → Bool
engages (awaited su) = switched_on su
engages e = true
