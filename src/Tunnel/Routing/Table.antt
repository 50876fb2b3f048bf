-- ===== src/Tunnel/Routing/Table.antt =====
-- What shinvpn/tunnel/routing.py relies on of `ip route`, as its manual has it: a second route to a
-- destination is refused, and a route is deleted if its gateway is the one that is named.
use mathlib.Core.List.{reverse-cons}
use shin_vpn.Prelude.{
  List, [], ◌∷◌, ◌++◌, Bool, true, false, ◌||◌, if◌then◌else◌, Option, none, some, ◌≡◌, refl, sym,
  ap, ◌∙◌, ◌⊎◌, inl, inr, reverse, bytes_eq, bytes_eq_refl, bytes_eq→eq, fun_ext, Bool-cases, All,
  arith,
}
use shin_vpn.Prelude.Exec.{Exec}
use shin_vpn.Prelude.Utf8.{Text, codes}
use shin_vpn.Tunnel.Routing.{Route}

-- The gateway of each destination.
abbrev pub Table : Type 0
Table = Text → Option Text

abbrev pub set_gateway : Text → Option Text → Option Text
set_gateway g none = some g
set_gateway g (some h) = some h

abbrev pub unset_gateway : Text → Option Text → Option Text
unset_gateway g none = none
unset_gateway g (some h) = if bytes_eq h g then none else some h

unfoldable pub with_route : Route → Table → Table
with_route r t d = if bytes_eq r.dest d then set_gateway r.gateway (t d) else t d

unfoldable pub without_route : Route → Table → Table
without_route r t d = if bytes_eq r.dest d then unset_gateway r.gateway (t d) else t d

abbrev pub route_text : Route → Text
route_text r = r.dest ++ (codes " via " ++ r.gateway)

pub record IpRoute {S : Type 0} (run : Text → Exec S Unit) : Type 1 where
  pub table : S → Table
  pub is_address : Text → Bool
  pub run-add :
      (s : S) (r : Route)
      → is_address r.dest ≡ true
      → is_address r.gateway ≡ true
      → table (run (codes "ip route add " ++ route_text r) s).0 ≡ with_route r (table s)
  pub run-del :
      (s : S) (r : Route)
      → is_address r.dest ≡ true
      → is_address r.gateway ≡ true
      → table (run (codes "ip route del " ++ route_text r) s).0 ≡ without_route r (table s)

unfoldable pub with_routes : List Route → Table → Table
unfolding with_route
with_routes [] t = t
with_routes (r ∷ rs) t = with_routes rs (with_route r t)

unfoldable pub without_routes : List Route → Table → Table
unfolding without_route
without_routes [] t = t
without_routes (r ∷ rs) t = without_routes rs (without_route r t)

without_routes-append :
    (rs qs : List Route) (t : Table)
    → without_routes (rs ++ qs) t ≡ without_routes qs (without_routes rs t)
unfolding without_routes
without_routes-append [] qs t = refl
without_routes-append (r ∷ rs) qs t = without_routes-append rs qs (without_route r t)

-- Routes that were added and then deleted in the reverse order.
abbrev undone : List Route → Table → Table
undone rs t = without_routes (reverse rs) (with_routes rs t)

undone-cons :
    (r : Route) (rs : List Route) (t : Table)
    → undone (r ∷ rs) t ≡ without_route r (undone rs (with_route r t))
unfolding with_routes without_routes
undone-cons r rs t =
    rw reverse-cons (without_routes-append (reverse rs) (r ∷ []) (with_routes rs (with_route r t)))

unfoldable pub leads_to : List Route → Text → Bool
leads_to [] d = false
leads_to (r ∷ rs) d = bytes_eq r.dest d || leads_to rs d

free_of_leads_to :
    (rs : List Route) (t : Table) (d : Text)
    → All (λ r. t r.dest ≡ none) rs
    → leads_to rs d ≡ true
    → t d ≡ none
unfolding leads_to
free_of_leads_to [] t d h e = absurd (cc)
free_of_leads_to (r ∷ rs) t d h e = elim (Bool-cases (bytes_eq r.dest d)) [
  | inl same ↦ ap t (sym (bytes_eq→eq r.dest d same)) ∙ h.0
  | inr other ↦ free_of_leads_to rs t d h.1 (ground arith)
]

undone-other :
    (rs : List Route) (t : Table) (d : Text) → leads_to rs d ≡ false → undone rs t d ≡ t d
unfolding with_routes without_routes leads_to with_route without_route
undone-other [] t d h = refl
undone-other (r ∷ rs) t d h =
    rw (undone-cons r rs t) (ground (arith, undone-other rs (with_route r t) d))

with_route-some : (r : Route) (t : Table) (d g : Text) → t d ≡ some g → with_route r t d ≡ some g
unfolding with_route
with_route-some r t d g h = ground arith

without_route-keeps :
    (r : Route) (t : Table) (d g : Text)
    → (t d ≡ some g) ⊎ (t d ≡ none)
    → (without_route r t d ≡ some g) ⊎ (without_route r t d ≡ none)
unfolding without_route
without_route-keeps r t d g (inl h) = ground arith
without_route-keeps r t d g (inr h) = ground arith

without_route-none : (r : Route) (t : Table) (d : Text) → t d ≡ none → without_route r t d ≡ none
unfolding without_route
without_route-none r t d h = ground arith

without_route-own :
    (r : Route) (t : Table) (d : Text)
    → bytes_eq r.dest d ≡ true
    → (t d ≡ some r.gateway) ⊎ (t d ≡ none)
    → without_route r t d ≡ none
unfolding without_route
without_route-own r t d e (inl h) = rw (e, h, bytes_eq_refl r.gateway)
without_route-own r t d e (inr h) = rw (e, h)

undone-some :
    (rs : List Route) (t : Table) (d g : Text)
    → t d ≡ some g
    → (undone rs t d ≡ some g) ⊎ (undone rs t d ≡ none)
unfolding with_routes without_routes
undone-some [] t d g h = inl h
undone-some (r ∷ rs) t d g h = rw (undone-cons r rs t) (
    without_route-keeps r (undone rs (with_route r t)) d g
      (undone-some rs (with_route r t) d g (with_route-some r t d g h)))

undone-none : (rs : List Route) (t : Table) (d : Text) → t d ≡ none → undone rs t d ≡ none
unfolding with_routes without_routes with_route
undone-none [] t d h = h
undone-none (r ∷ rs) t d h = rw (undone-cons r rs t) (elim (Bool-cases (bytes_eq r.dest d)) [
  | inl e ↦
      without_route-own r (undone rs (with_route r t)) d e
        (undone-some rs (with_route r t) d r.gateway (rw (e, h)))
  | inr e ↦
      without_route-none r (undone rs (with_route r t)) d
        (undone-none rs (with_route r t) d (rw (e, h)))
])

-- Where no route led to their destinations, the table is as it was.
pub undone-new :
    (rs : List Route) (t : Table)
    → All (λ r. t r.dest ≡ none) rs
    → without_routes (reverse rs) (with_routes rs t) ≡ t
undone-new rs t h = fun_ext (λ d. elim (Bool-cases (leads_to rs d)) [
  | inl e ↦ let free = free_of_leads_to rs t d h e in undone-none rs t d free ∙ sym free
  | inr e ↦ undone-other rs t d e
])

module _ {S : Type 0} (run : Text → Exec S Unit) (i : IpRoute run) where
  abbrev pub AreAddresses : List Route → Type 0
  AreAddresses = All (λ r. (i.is_address r.dest ≡ true) × (i.is_address r.gateway ≡ true))

  unfoldable pub added_all : List Route → S → S
  added_all [] s = s
  added_all (r ∷ rs) s = added_all rs (run (codes "ip route add " ++ route_text r) s).0

  unfoldable pub deleted_all : List Route → S → S
  deleted_all [] s = s
  deleted_all (r ∷ rs) s = deleted_all rs (run (codes "ip route del " ++ route_text r) s).0

  pub table-added_all :
      (rs : List Route) (s : S)
      → AreAddresses rs
      → i.table (added_all rs s) ≡ with_routes rs (i.table s)
  unfolding added_all with_routes
  table-added_all [] s h = refl
  table-added_all (r ∷ rs) s h =
      table-added_all rs _ h.1 ∙ ap (with_routes rs) (i.run-add s r h.0.0 h.0.1)

  pub table-deleted_all :
      (rs : List Route) (s : S)
      → AreAddresses rs
      → i.table (deleted_all rs s) ≡ without_routes rs (i.table s)
  unfolding deleted_all without_routes
  table-deleted_all [] s h = refl
  table-deleted_all (r ∷ rs) s h =
      table-deleted_all rs _ h.1 ∙ ap (without_routes rs) (i.run-del s r h.0.0 h.0.1)
