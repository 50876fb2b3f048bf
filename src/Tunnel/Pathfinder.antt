-- ===== src/Tunnel/Pathfinder.antt =====
-- `RelayNodeScore` and `DynamicHopPathfinder` of shinvpn/tunnel/multihop.py. Floats are a parameter
-- with the operations that the code uses.
pub mod Diversity
use shin_vpn.Prelude.{
  ℕ, List, [], ◌∷◌, Bool, true, false, not, ◌&&◌, if◌then◌else◌, Option, none, some, bytes_eq,
  is_empty,
}
use shin_vpn.Prelude.Assoc.{Assoc, lookup, has, insert}
use shin_vpn.Prelude.Utf8.{Text, codes}
use mathlib.Core.Option.{get_or}

-- `literal n d` is the float literal of n / d.
pub record Floats (F : Type 0) : Type 0 where
  pub plus : F → F → F
  pub times : F → F → F
  pub less : F → F → Bool
  pub literal : ℕ → ℕ → F

pub record RelayNodeScore (F : Type 0) : Type 0 where
  pub node_id : Text
  pub host : Text
  pub port : ℕ
  pub rtt_ms : F
  pub jitter_ms : F
  pub packet_loss_pct : F
  pub last_ping_time : F
  pub is_healthy : Bool

-- d.values()
abbrev pub values {ℓ κ} : {K : Type ℓ} {V : Type κ} → Assoc K V → List V
values [] = []
values ((k, v) ∷ d) = v ∷ values d

module _ {F : Type 0} (floats : Floats F) where
  open floats use {plus, times, less, literal}

  unfoldable pub cost : RelayNodeScore F → F
  cost n =
      if not n.is_healthy
      then literal 99999 1
      else plus (plus n.rtt_ms (times n.jitter_ms (literal 3 2)))
          (times n.packet_loss_pct (literal 50 1))

  -- RelayNodeScore(node_id, host, port, rtt_ms) at the time `now`.
  unfoldable pub new_node : F → Text → Text → ℕ → F → RelayNodeScore F
  new_node now node_id host port rtt_ms = record {
    node_id = node_id;
    host = host;
    port = port;
    rtt_ms = rtt_ms;
    jitter_ms = literal 2 1;
    packet_loss_pct = literal 0 1;
    last_ping_time = now;
    is_healthy = true;
  }

  abbrev pub default_nodes : List (Text × (Text × ℕ × F))
  default_nodes =
      (codes "tokyo", (codes "103.28.44.12", 51820, literal 18 1))
      ∷ (codes "singapore", (codes "139.180.201.88", 51820, literal 24 1))
      ∷ (codes "frankfurt", (codes "45.142.112.5", 51820, literal 42 1))
      ∷ (codes "london", (codes "185.220.101.5", 51820, literal 48 1))
      ∷ (codes "local", (codes "127.0.0.1", 51820, literal 12 10))
      ∷ []

  unfoldable pub load_nodes :
      F
      → List (Text × (Text × ℕ × F))
      → Assoc Text (RelayNodeScore F)
      → Assoc Text (RelayNodeScore F)
  load_nodes now [] nodes = nodes
  load_nodes now ((nid, (host, port, rtt)) ∷ rest) nodes =
      load_nodes now rest (insert bytes_eq nid (new_node now nid host port rtt) nodes)

  unfoldable pub new_pathfinder : F → Assoc Text (RelayNodeScore F)
  new_pathfinder now = load_nodes now default_nodes []

  unfoldable pub measured : F → F → F → F → RelayNodeScore F → RelayNodeScore F
  measured now rtt jitter loss n = record n {
    rtt_ms = rtt;
    jitter_ms = jitter;
    packet_loss_pct = loss;
    last_ping_time = now;
    is_healthy = less loss (literal 25 1);
  }

  unfoldable pub update_metrics :
      F → Text → F → F → F → Assoc Text (RelayNodeScore F) → Assoc Text (RelayNodeScore F)
  update_metrics now node_id rtt jitter loss nodes = elim (lookup bytes_eq node_id nodes) [
    | none ↦ nodes
    | some n ↦ insert bytes_eq node_id (measured now rtt jitter loss n) nodes
  ]

  unfoldable pub healthy : List (RelayNodeScore F) → List (RelayNodeScore F)
  healthy [] = []
  healthy (n ∷ ns) = let rest = healthy ns in if n.is_healthy then n ∷ rest else rest

  -- sorted(candidates, key=lambda x: x.cost), which keeps the order of equal costs.
  unfoldable pub place : RelayNodeScore F → List (RelayNodeScore F) → List (RelayNodeScore F)
  place n [] = n ∷ []
  place n (m ∷ ms) =
      let rest = place n ms in if less (cost m) (cost n) then m ∷ rest else n ∷ m ∷ ms

  unfoldable pub sorted : List (RelayNodeScore F) → List (RelayNodeScore F)
  sorted [] = []
  sorted (n ∷ ns) = place n (sorted ns)

  -- The node of a preferred id: `if preferred and preferred in self.nodes`.
  unfoldable pub preferred_node :
      Option Text → Assoc Text (RelayNodeScore F) → Option (RelayNodeScore F)
  preferred_node none nodes = none
  preferred_node (some id) nodes = if is_empty id then none else lookup bytes_eq id nodes

  -- The loop over the sorted nodes.
  unfoldable pub first_other : Text → List (RelayNodeScore F) → Option (RelayNodeScore F)
  first_other id [] = none
  first_other id (n ∷ ns) =
      let rest = first_other id ns in if not (bytes_eq n.node_id id) then some n else rest

  -- The preferred exit, unless it is the entry.
  unfoldable pub preferred_exit_of :
      Option Text → Text → Assoc Text (RelayNodeScore F) → Option (RelayNodeScore F)
  preferred_exit_of none entry_id nodes = none
  preferred_exit_of (some id) entry_id nodes =
      if bytes_eq id entry_id then none else preferred_node (some id) nodes

  unfoldable pub exit_for :
      Option Text
      → Assoc Text (RelayNodeScore F)
      → RelayNodeScore F
      → List (RelayNodeScore F)
      → RelayNodeScore F
      → RelayNodeScore F
  exit_for preferred_exit nodes best order entry =
      elim (preferred_exit_of preferred_exit entry.node_id nodes) [
        | some n ↦ n
        | none ↦ get_or (first_other entry.node_id order) best
      ]

  unfoldable pub pair_from :
      Option Text
      → Option Text
      → Assoc Text (RelayNodeScore F)
      → F
      → List (RelayNodeScore F)
      → RelayNodeScore F × RelayNodeScore F
  pair_from preferred_entry preferred_exit nodes now [] = (
    get_or (lookup bytes_eq (codes "tokyo") nodes)
        (new_node now (codes "tokyo") (codes "103.28.44.12") 51820 (literal 20 1)),
    get_or (lookup bytes_eq (codes "frankfurt") nodes)
        (new_node now (codes "frankfurt") (codes "45.142.112.5") 51820 (literal 20 1)),
  )
  pair_from preferred_entry preferred_exit nodes now (best ∷ order) =
      let entry = get_or (preferred_node preferred_entry nodes) best in
      (entry, exit_for preferred_exit nodes best (best ∷ order) entry)

  unfoldable pub find_optimal_hop_pair :
      Option Text
      → Option Text
      → Assoc Text (RelayNodeScore F)
      → F
      → RelayNodeScore F × RelayNodeScore F
  find_optimal_hop_pair preferred_entry preferred_exit nodes now =
      pair_from preferred_entry preferred_exit nodes now (sorted (healthy (values nodes)))
