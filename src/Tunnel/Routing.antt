-- ===== src/Tunnel/Routing.antt =====
-- `RouteManager` of shinvpn/tunnel/routing.py. What `check_output` answers is an argument: the
-- output of a command, or its exception.
pub mod Table
pub mod Restored
use shin_vpn.Prelude.{
  List, [], ◌∷◌, ◌++◌, Bool, true, false, ◌&&◌, if◌then◌else◌, Option, none, some, Result, ok, err,
  bytes_eq, reverse,
}
use shin_vpn.Prelude.Exec.{Exec, pure, modify, rescue, ◌>>◌}
use shin_vpn.Prelude.Utf8.{Text, codes}
use shin_vpn.Prelude.Decimal.{cons_head}
use shin_vpn.Tunnel.Domain.{is_space}
use shin_vpn.Tunnel.Shell.{World, run_cmd, is_windows, is_linux}

pub record Route : Type 0 where
  pub dest : Text
  pub mask : Text
  pub gateway : Text

pub record RouteManager : Type 0 where
  pub server_ip : Text
  pub gateway_ip : Text
  pub adapter_name : Text
  pub physical_gateway : Option Text
  pub routes_added : List Route

unfoldable pub new_route_manager : Text → Text → Text → RouteManager
new_route_manager server_ip gateway_ip adapter_name = record {
  server_ip = server_ip;
  gateway_ip = gateway_ip;
  adapter_name = adapter_name;
  physical_gateway = none;
  routes_added = [];
}

-- The fields between blanks, the first of which may be empty.
unfoldable pub fields : Text → List Text
fields [] = [] ∷ []
fields (c ∷ t) = let rest = fields t in if is_space c then [] ∷ rest else cons_head c rest

abbrev pub non_empty : List Text → List Text
non_empty [] = []
non_empty ([] ∷ ts) = non_empty ts
non_empty ((c ∷ t) ∷ ts) = (c ∷ t) ∷ non_empty ts

-- t.split()
unfoldable pub words : Text → List Text
unfolding fields
words t = non_empty (fields t)

-- t.splitlines(), of lines that end in "\n" or "\r\n": words take the "\r" off, and an empty line
-- at the end has none.
unfoldable pub lines : Text → List Text
lines [] = [] ∷ []
lines (c ∷ t) =
    let rest = lines t in if bytes_eq (c ∷ []) (codes "\n") then [] ∷ rest else cons_head c rest

-- parts[2], where the first two of at least five are 0.0.0.0
abbrev pub windows_gateway : List Text → Option Text
windows_gateway (a ∷ b ∷ c ∷ d ∷ e ∷ ps) =
    if bytes_eq a (codes "0.0.0.0") && bytes_eq b (codes "0.0.0.0") then some c else none
windows_gateway ps = none

unfoldable pub first_gateway : List Text → Option Text
unfolding words
first_gateway [] = none
first_gateway (l ∷ ls) =
    let later = first_gateway ls in
    elim (windows_gateway (words l)) [ none ↦ later | some g ↦ some g ]

-- parts[parts.index("via") + 1], where it is there: past the end is an exception, and so none.
unfoldable pub after_via : List Text → Option Text
after_via [] = none
after_via (p ∷ []) = none
after_via (p ∷ q ∷ ps) =
    let later = after_via (q ∷ ps) in if bytes_eq p (codes "via") then some q else later

unfoldable pub get_default_gateway : Text → (Text → Result Text) → Option Text
unfolding first_gateway lines after_via words
get_default_gateway platform check_output =
    if is_windows platform
    then elim (check_output (codes "route print 0.0.0.0")) [
      | ok output ↦ first_gateway (lines output)
      | err e ↦ none
    ]
    else if is_linux platform
    then elim (check_output (codes "ip route show default")) [
      | ok output ↦ after_via (words output)
      | err e ↦ none
    ]
    else none

module _ {S : Type 0} (run : Text → Exec S Unit) where
  -- _exec
  abbrev pub exec : Text → Exec (World RouteManager S) Unit
  exec cmd w = rescue (run_cmd run cmd) (pure tt) w

  abbrev pub added : Route → Exec (World RouteManager S) Unit
  added r =
      modify
        (λ w. record w { self = record w.self { routes_added = w.self.routes_added ++ (r ∷ []) } })

  unfoldable pub add_windows : Text → Text → Text → Text → Exec (World RouteManager S) Unit
  add_windows dest mask gateway metric =
      exec (
        codes "route add "
        ++ (dest ++ (codes " mask " ++ (mask ++ (codes " " ++ (gateway ++ metric))))))
      >> added (record { dest = dest; mask = mask; gateway = gateway })

  unfoldable pub add_linux : Text → Text → Text → Exec (World RouteManager S) Unit
  add_linux dest mask gateway =
      exec (codes "ip route add " ++ (dest ++ (codes " via " ++ gateway)))
      >> added (record { dest = dest; mask = mask; gateway = gateway })

  unfoldable pub add_routes : Text → Text → Exec (World RouteManager S) Bool
  unfolding add_windows add_linux
  add_routes platform gateway w =
      if is_windows platform
      then (add_windows w.self.server_ip (codes "255.255.255.255") gateway (codes " metric 1")
            >> (add_windows (codes "0.0.0.0") (codes "128.0.0.0") w.self.gateway_ip
                  (codes " metric 5")
                >> (add_windows (codes "128.0.0.0") (codes "128.0.0.0") w.self.gateway_ip
                      (codes " metric 5")
                    >> pure true)))
          w
      else if is_linux platform
      then (add_linux w.self.server_ip (codes "32") gateway
            >> (add_linux (codes "0.0.0.0/1") [] w.self.gateway_ip
                >> (add_linux (codes "128.0.0.0/1") [] w.self.gateway_ip >> pure true)))
          w
      else (w, ok false)

  abbrev pub found : Option Text → Exec (World RouteManager S) Unit
  found gateway = modify (λ w. record w { self = record w.self { physical_gateway = gateway } })

  -- An empty gateway counts as none.
  unfoldable pub setup_routes : Text → (Text → Result Text) → Exec (World RouteManager S) Bool
  unfolding get_default_gateway add_routes
  setup_routes platform check_output =
      found (get_default_gateway platform check_output)
      >> elim (get_default_gateway platform check_output) [
        | none ↦ pure false
        | some [] ↦ pure false
        | some (c ∷ gateway) ↦ add_routes platform (c ∷ gateway)
      ]

  abbrev pub delete_route : Text → Route → Exec (World RouteManager S) Unit
  delete_route platform r =
      if is_windows platform
      then exec (
          codes "route delete "
          ++ (r.dest ++ (codes " mask " ++ (r.mask ++ (codes " " ++ r.gateway)))))
      else if is_linux platform
      then exec (codes "ip route del " ++ (r.dest ++ (codes " via " ++ r.gateway)))
      else pure tt

  unfoldable pub delete_routes : Text → List Route → Exec (World RouteManager S) Unit
  delete_routes platform [] = pure tt
  delete_routes platform (r ∷ rs) = delete_route platform r >> delete_routes platform rs

  unfoldable pub restore_routes : Text → Exec (World RouteManager S) Unit
  unfolding delete_routes
  restore_routes platform w =
      (delete_routes platform (reverse w.self.routes_added)
          >> modify (λ v. record v { self = record v.self { routes_added = [] } }))
        w
