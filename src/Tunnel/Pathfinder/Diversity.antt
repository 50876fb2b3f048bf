-- ===== src/Tunnel/Pathfinder/Diversity.antt =====
-- The exit is another node than the entry.
use shin_vpn.Prelude.{
  List, [], ◌∷◌, Bool, true, false, not, ◌||◌, Option, none, some, bytes_eq, bytes_eq→eq, ◌≡◌, refl,
  sym, ap, ◌∙◌, arith, Bool-cases, Option-cases, inl, inr, All,
}
use shin_vpn.Prelude.Assoc.{Assoc, lookup}
use shin_vpn.Prelude.Utf8.{Text}
use mathlib.Core.Option.{get_or}
use shin_vpn.Tunnel.Pathfinder.{
  Floats, RelayNodeScore, values, healthy, place, sorted, preferred_node, first_other,
  preferred_exit_of, exit_for, pair_from, find_optimal_hop_pair,
}

-- Is there a node with another id?
abbrev pub some_other : {F : Type 0} → Text → List (RelayNodeScore F) → Bool
some_other id [] = false
some_other id (n ∷ ns) = not (bytes_eq n.node_id id) || some_other id ns

-- Each node is filed under its id.
abbrev pub Filed : {F : Type 0} → Assoc Text (RelayNodeScore F) → Type 0
Filed nodes = All (λ e. bytes_eq e.1.node_id e.0 ≡ true) nodes

module _ {F : Type 0} (floats : Floats F) where
  some_other-place :
      (id : Text) (n : RelayNodeScore F) (ms : List (RelayNodeScore F))
      → some_other id (place floats n ms) ≡ (not (bytes_eq n.node_id id) || some_other id ms)
  unfolding place
  some_other-place id n [] = refl
  some_other-place id n (m ∷ ms) = ground (arith, some_other-place id n ms)

  some_other-sorted :
      (id : Text) (ns : List (RelayNodeScore F))
      → some_other id (sorted floats ns) ≡ some_other id ns
  unfolding sorted
  some_other-sorted id [] = refl
  some_other-sorted id (n ∷ ns) =
      some_other-place id n (sorted floats ns)
      ∙ ap (λ (b : Bool). not (bytes_eq n.node_id id) || b) (some_other-sorted id ns)

  first_other_differs :
      (id : Text) (best : RelayNodeScore F) (ns : List (RelayNodeScore F))
      → some_other id ns ≡ true
      → bytes_eq (get_or (first_other floats id ns) best).node_id id ≡ false
  unfolding first_other
  first_other_differs id best [] h = absurd (cc)
  first_other_differs id best (n ∷ ns) h = elim (Bool-cases (bytes_eq n.node_id id)) [
    | inl same ↦ rw same (first_other_differs id best ns (ground (arith, same, h)))
    | inr other ↦ rw other other
  ]

  lookup-Filed :
      (id : Text) (n : RelayNodeScore F) (nodes : Assoc Text (RelayNodeScore F))
      → Filed nodes
      → lookup bytes_eq id nodes ≡ some n
      → n.node_id ≡ id
  unfolding lookup
  lookup-Filed id n [] f e = absurd (cc)
  lookup-Filed id n ((k, m) ∷ nodes) f e = elim (Bool-cases (bytes_eq k id)) [
    | inl same ↦
        ap (λ (x : RelayNodeScore F). x.node_id) (sym (some_inj (rw same at e)))
        ∙ bytes_eq→eq m.node_id k f.0
        ∙ bytes_eq→eq k id same
    | inr other ↦ lookup-Filed id n nodes f.1 (rw other at e)
  ]
    where
      some_inj : {x y : RelayNodeScore F} → some x ≡ some y → x ≡ y
      some_inj p = cc

  preferred_exit_differs :
      (p : Option Text) (id : Text) (n : RelayNodeScore F) (nodes : Assoc Text (RelayNodeScore F))
      → Filed nodes
      → preferred_exit_of floats p id nodes ≡ some n
      → bytes_eq n.node_id id ≡ false
  unfolding preferred_exit_of preferred_node
  preferred_exit_differs none id n nodes f e = absurd (cc)
  preferred_exit_differs (some q) id n nodes f e = elim (Bool-cases (bytes_eq q id)) [
    | inl same ↦ absurd (ground (arith, same, e))
    | inr other ↦
        ap (λ (x : Text). bytes_eq x id) (lookup-Filed q n nodes f (ground (arith, other, e)))
        ∙ other
  ]

  exit_for_differs :
      (p : Option Text) (nodes : Assoc Text (RelayNodeScore F)) (best entry : RelayNodeScore F)
      (order : List (RelayNodeScore F))
      → Filed nodes
      → some_other entry.node_id order ≡ true
      → bytes_eq (exit_for floats p nodes best order entry).node_id entry.node_id ≡ false
  unfolding exit_for
  exit_for_differs p nodes best entry order f h =
      elim (Option-cases (preferred_exit_of floats p entry.node_id nodes)) [
        | inl nothing ↦ rw (nothing, exit_for) (first_other_differs entry.node_id best order h)
        | inr (n, found) ↦
            rw (found, exit_for) (preferred_exit_differs p entry.node_id n nodes f found)
      ]

  pair_from_differs :
      (pe px : Option Text) (nodes : Assoc Text (RelayNodeScore F)) (now : F)
      (order : List (RelayNodeScore F))
      → Filed nodes
      → some_other (pair_from floats pe px nodes now order).0.node_id order ≡ true
      → bytes_eq
          (pair_from floats pe px nodes now order).1.node_id
          (pair_from floats pe px nodes now order).0.node_id
        ≡ false
  unfolding pair_from
  pair_from_differs pe px nodes now [] f h = absurd (cc)
  pair_from_differs pe px nodes now (best ∷ order) f h =
      exit_for_differs px nodes best (get_or (preferred_node floats pe nodes) best) (best ∷ order) f
        h

  -- The exit is another node than the entry, whatever is preferred, where each node is filed under
  -- its id and some healthy node is not the entry.
  pub exit_differs :
      (pe px : Option Text) (nodes : Assoc Text (RelayNodeScore F)) (now : F)
      → Filed nodes
      → some_other
          (find_optimal_hop_pair floats pe px nodes now).0.node_id
          (healthy floats (values nodes))
        ≡ true
      → bytes_eq
          (find_optimal_hop_pair floats pe px nodes now).1.node_id
          (find_optimal_hop_pair floats pe px nodes now).0.node_id
        ≡ false
  unfolding find_optimal_hop_pair
  exit_differs pe px nodes now f h =
      pair_from_differs pe px nodes now (sorted floats (healthy floats (values nodes))) f
        (some_other-sorted _ (healthy floats (values nodes)) ∙ h)
