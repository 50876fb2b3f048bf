-- ===== src/Tunnel/Routing/Restored.antt =====
-- `restore_routes` of shinvpn/tunnel/routing.py undoes `setup_routes`, on Linux.
use mathlib.Core.List.{append-nil, append_assoc}
use shin_vpn.Prelude.{
  List, [], ◌∷◌, ◌++◌, Bool, true, false, Option, none, some, Result, ok, err, ◌≡◌, refl, ap, ◌∙◌,
  reverse, All, All-reverse,
}
use shin_vpn.Prelude.Exec.{Exec, pure, rescued}
use shin_vpn.Prelude.Utf8.{Text, codes}
use shin_vpn.Tunnel.Shell.{World}
use shin_vpn.Tunnel.Routing.{
  Route, RouteManager, get_default_gateway, add_linux, add_routes, setup_routes, delete_routes,
  restore_routes,
}
use shin_vpn.Tunnel.Routing.Table.{
  IpRoute, Table, AreAddresses, added_all, deleted_all, without_routes, table-added_all,
  table-deleted_all, undone-new,
}

rescued-done : {O : Type 0} (w : O) (r : Result Unit) → rescued (w, r) (pure tt) ≡ (w, ok tt)
rescued-done w (ok u) = refl
rescued-done w (err e) = refl

-- The routes of `setup_routes`: the server by the gateway there was, and the two halves of all
-- addresses by the tunnel.
unfoldable pub linux_routes : RouteManager → Text → List Route
linux_routes m gateway =
    record { dest = m.server_ip; mask = codes "32"; gateway = gateway }
    ∷ record { dest = codes "0.0.0.0/1"; mask = []; gateway = m.gateway_ip }
    ∷ record { dest = codes "128.0.0.0/1"; mask = []; gateway = m.gateway_ip }
    ∷ []

module _ {S : Type 0} (run : Text → Exec S Unit) (i : IpRoute run) where
  add_linux-eq :
      (r : Route) (w : World RouteManager S)
      → add_linux run r.dest r.mask r.gateway w ≡ (
        record {
          self = record w.self { routes_added = w.self.routes_added ++ (r ∷ []) };
          system = added_all run i (r ∷ []) w.system;
        },
        ok tt,
      )
  unfolding add_linux added_all
  add_linux-eq r w = rw (rescued-done)

  delete_routes-eq :
      (rs : List Route) (w : World RouteManager S)
      → delete_routes run (codes "Linux") rs w
        ≡ (record w { system = deleted_all run i rs w.system }, ok tt)
  unfolding delete_routes deleted_all
  delete_routes-eq [] w = refl
  delete_routes-eq (r ∷ rs) w = rw rescued-done (delete_routes-eq rs _)

  add_routes-eq :
      (m : RouteManager) (gateway : Text) (s : S)
      → add_routes run (codes "Linux") gateway (record { self = m; system = s }) ≡ (
        record {
          self = record m { routes_added = m.routes_added ++ linux_routes m gateway };
          system = added_all run i (linux_routes m gateway) s;
        },
        ok true,
      )
  unfolding add_routes add_linux linux_routes added_all
  add_routes-eq m gateway s =
      rw (rescued-done, rescued-done, rescued-done, append_assoc, append_assoc)

  -- The routes that are added where this is found for the gateway.
  unfoldable pub routes_for : RouteManager → Option Text → List Route
  unfolding linux_routes
  routes_for m none = []
  routes_for m (some []) = []
  routes_for m (some (c ∷ gateway)) = linux_routes m (c ∷ gateway)

  unfoldable pub set_up : RouteManager → Option Text → S → World RouteManager S
  unfolding routes_for added_all
  set_up m o s = record {
    self = record m { physical_gateway = o; routes_added = m.routes_added ++ routes_for m o };
    system = added_all run i (routes_for m o) s;
  }

  unfoldable pub is_found : Option Text → Bool
  is_found none = false
  is_found (some []) = false
  is_found (some (c ∷ gateway)) = true

  setup-eq :
      (m : RouteManager) (s : S) (check_output : Text → Result Text) (o : Option Text)
      → get_default_gateway (codes "Linux") check_output ≡ o
      → setup_routes run (codes "Linux") check_output (record { self = m; system = s })
        ≡ (set_up m o s, ok (is_found o))
  unfolding setup_routes set_up routes_for is_found added_all linux_routes
  setup-eq m s check_output none e = rw (e, append-nil)
  setup-eq m s check_output (some []) e = rw (e, append-nil)
  setup-eq m s check_output (some (c ∷ gateway)) e = rw e (add_routes-eq _ (c ∷ gateway) s)

  restore-eq :
      (m : RouteManager) (s : S)
      → restore_routes run (codes "Linux") (record { self = m; system = s }) ≡ (
        record {
          self = record m { routes_added = [] };
          system = deleted_all run i (reverse m.routes_added) s;
        },
        ok tt,
      )
  unfolding restore_routes
  restore-eq m s = rw (delete_routes-eq (reverse m.routes_added))

  routes_for-AreAddresses :
      (m : RouteManager) (o : Option Text)
      → ((g : Text) → o ≡ some g → AreAddresses run i (linux_routes m g))
      → AreAddresses run i (routes_for m o)
  unfolding routes_for
  routes_for-AreAddresses m none h = tt
  routes_for-AreAddresses m (some []) h = tt
  routes_for-AreAddresses m (some (c ∷ gateway)) h = h (c ∷ gateway) refl

  routes_for-new :
      (m : RouteManager) (o : Option Text) (t : Table)
      → All (λ r. t r.dest ≡ none) (linux_routes m [])
      → All (λ r. t r.dest ≡ none) (routes_for m o)
  unfolding routes_for linux_routes
  routes_for-new m none t h = tt
  routes_for-new m (some []) t h = tt
  routes_for-new m (some (c ∷ gateway)) t h = h

  undone :
      (rs : List Route) (s : S)
      → AreAddresses run i rs
      → All (λ r. i.table s r.dest ≡ none) rs
      → i.table (deleted_all run i (reverse rs) (added_all run i rs s)) ≡ i.table s
  undone rs s h new =
      table-deleted_all run i (reverse rs) (added_all run i rs s) (All-reverse _ rs h)
      ∙ (ap (without_routes (reverse rs)) (table-added_all run i rs s h)
          ∙ undone-new rs (i.table s) new)

  -- The routes of a manager that had added none are taken away again: on Linux, where the server and
  -- both gateways are addresses that `ip route` takes and no route led to the three destinations,
  -- the table after `setup_routes` and `restore_routes` is the one before, whatever gateway was
  -- found, and the manager holds no route.
  pub restore_routes-setup_routes :
      (m : RouteManager) (s : S) (check_output : Text → Result Text)
      → m.routes_added ≡ []
      → ((g : Text)
          → get_default_gateway (codes "Linux") check_output ≡ some g
          → AreAddresses run i (linux_routes m g))
      → All (λ r. i.table s r.dest ≡ none) (linux_routes m [])
      → let w =
          (setup_routes run (codes "Linux") check_output (record { self = m; system = s })).0 in
        let out = restore_routes run (codes "Linux") w in
        (out.1 ≡ ok tt) × (out.0.self.routes_added ≡ []) × (i.table out.0.system ≡ i.table s)
  unfolding set_up
  restore_routes-setup_routes m s check_output empty addresses new =
      let rs = routes_for m (get_default_gateway (codes "Linux") check_output) in
      rw (setup-eq m s check_output _ refl, restore-eq)
        (
          refl,
          refl,
          ap (λ before. i.table (deleted_all run i (reverse (before ++ rs)) (added_all run i rs s)))
                empty
              ∙ undone rs s (routes_for-AreAddresses m _ addresses)
                  (routes_for-new m _ (i.table s) new),
        )
