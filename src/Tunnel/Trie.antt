-- ===== src/Tunnel/Trie.antt =====
-- `TrieNode` and `ReverseDomainRadixTrie` of shinvpn/tunnel/adblock.py.
pub mod Rules
use shin_vpn.Prelude.{
  ℕ, ◌+◌, List, [], ◌∷◌, Bool, true, false, not, ◌&&◌, ◌||◌, if◌then◌else◌, Option, none, some,
  reverse, bytes_eq,
}
use shin_vpn.Prelude.Utf8.{Text}
use shin_vpn.Tunnel.Domain.{clean, labels}

mutual
  pub data TrieNode : Type 0 where
    node : Bool → Children → TrieNode

  pub data Children : Type 0 where
    no_child : Children
    child : Text → TrieNode → Children → Children

pub record ReverseDomainRadixTrie : Type 0 where
  pub root : TrieNode
  pub total_rules : ℕ

-- TrieNode()
abbrev pub new_node : TrieNode
new_node = node false no_child

unfoldable pub new_trie : ReverseDomainRadixTrie
new_trie = record { root = new_node; total_rules = 0 }

abbrev pub is_leaf : TrieNode → Bool
is_leaf (node leaf cs) = leaf

abbrev pub children : TrieNode → Children
children (node leaf cs) = cs

-- node.children.get(label)
unfoldable pub get_child : Text → Children → Option TrieNode
get_child l no_child = none
get_child l (child k n cs) = if bytes_eq k l then some n else get_child l cs

-- node.children[label] = n
unfoldable pub put_child : Text → TrieNode → Children → Children
put_child l n no_child = child l n no_child
put_child l n (child k m cs) =
    let rest = put_child l n cs in if bytes_eq k l then child k n cs else child k m rest

-- The child that the walk goes on from, a new one where there is none.
unfoldable pub child_or_new : Text → Children → TrieNode
child_or_new l cs = elim (get_child l cs) [ none ↦ new_node | some n ↦ n ]

unfoldable pub insert_labels : List Text → TrieNode → TrieNode
insert_labels [] n = node true (children n)
insert_labels (l ∷ ls) n =
    node (is_leaf n) (put_child l (insert_labels ls (child_or_new l (children n))) (children n))

-- Is the node at the end of the walk already a leaf?
unfoldable pub leaf_at : List Text → TrieNode → Bool
leaf_at [] n = is_leaf n
leaf_at (l ∷ ls) n = leaf_at ls (child_or_new l (children n))

-- domain.strip().lower().rstrip(".").split(".")[::-1]
abbrev pub reversed_labels : Text → List Text
reversed_labels domain = reverse (labels (clean domain))

unfoldable pub insert : ReverseDomainRadixTrie → Text → ReverseDomainRadixTrie
insert t domain =
    let ls = reversed_labels domain in
    record {
      root = insert_labels ls t.root;
      total_rules = if leaf_at ls t.root then t.total_rules else t.total_rules + 1;
    }

-- The loop of `match`, which ends at the first leaf.
unfoldable pub match_labels : List Text → TrieNode → Bool
match_labels [] n = is_leaf n
match_labels (l ∷ ls) n = elim (get_child l (children n)) [
  | none ↦ false
  | some c ↦ if is_leaf c then true else match_labels ls c
]

unfoldable pub match : ReverseDomainRadixTrie → Text → Bool
match t domain = match_labels (reversed_labels domain) t.root
