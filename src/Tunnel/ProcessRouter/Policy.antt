-- ===== src/Tunnel/ProcessRouter/Policy.antt =====
-- Which processes go through the tunnel.
use shin_vpn.Prelude.{
  List, [], ◌∷◌, Bool, true, false, not, ◌&&◌, ◌||◌, if◌then◌else◌, bytes_eq, is_empty, ◌≡◌, refl,
  arith,
}
use shin_vpn.Prelude.Utf8.{Text, codes}
use shin_vpn.Tunnel.Domain.{lower}
use shin_vpn.Tunnel.ProcessRouter.{
  ProcessRoutingMatrix, text_in, strip, selected, upper, set_rules, should_route_process,
}

-- Is the process one of those named, up to case and surrounding blanks?
abbrev pub named : Text → List Text → Bool
named p [] = false
named p (a ∷ rest) =
    (not (is_empty (strip a)) && bytes_eq (lower (strip a)) (lower p)) || named p rest

text_in-selected :
    (p : Text) (app_list : List Text) → text_in (lower p) (selected app_list) ≡ named p app_list
unfolding selected
text_in-selected p [] = refl
text_in-selected p (a ∷ rest) = ground (arith, text_in-selected p rest)

-- After the rules are set, a process goes through the tunnel: always while they are off; in the
-- exclusive mode, exactly if it is named; in every other mode, exactly if it is not.
pub should_route_process-set_rules :
    (m : ProcessRoutingMatrix) (enabled : Bool) (mode : Text) (app_list : List Text) (p : Text)
    → should_route_process (set_rules enabled mode app_list m) p ≡ (
        if not enabled
        then true
        else if bytes_eq (upper mode) (codes "EXCLUSIVE")
        then named p app_list
        else not (named p app_list))
unfolding should_route_process set_rules
should_route_process-set_rules m enabled mode app_list p = rw (text_in-selected p app_list) refl
