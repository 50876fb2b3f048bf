-- ===== src/Tunnel/Trie/Rules.antt =====
-- The trie against the list of the rules that were inserted into it.
use shin_vpn.Prelude.{
  ℕ, List, [], ◌∷◌, Bool, true, false, ◌&&◌, ◌||◌, if◌then◌else◌, none, some, bytes_eq,
  bytes_eq_refl, bytes_eq→eq, ◌≡◌, refl, ap, ◌∙◌, arith, Bool-cases, inl, inr, Option-cases, ◌<◌,
  length, length-reverse, ◌==◌,
}
use shin_vpn.Prelude.Utf8.{Text}
use shin_vpn.Prelude.Decimal.{split, cons_head}
use shin_vpn.Tunnel.Domain.{clean}
use shin_vpn.Tunnel.Trie.{
  TrieNode, node, Children, no_child, child, ReverseDomainRadixTrie, new_trie, new_node, is_leaf,
  children, get_child, put_child, child_or_new, insert_labels, insert, match_labels, match,
  reversed_labels,
}

bytes_eq_sym : (a b : Text) → bytes_eq a b ≡ bytes_eq b a
bytes_eq_sym [] [] = refl
bytes_eq_sym [] (y ∷ ys) = refl
bytes_eq_sym (x ∷ xs) [] = refl
bytes_eq_sym (x ∷ xs) (y ∷ ys) = ground (arith, bytes_eq_sym xs ys)

-- Does the list of labels begin with the rule?
abbrev pub begins : List Text → List Text → Bool
begins [] ls = true
begins (r ∷ rs) [] = false
begins (r ∷ rs) (l ∷ ls) = bytes_eq r l && begins rs ls

get-put_child :
    (k l : Text) (n : TrieNode) (cs : Children)
    → get_child k (put_child l n cs) ≡ (if bytes_eq l k then some n else get_child k cs)
unfolding get_child put_child
get-put_child k l n no_child = refl
get-put_child k l n (child j m cs) = ground (
  arith,
  get-put_child k l n cs,
  bytes_eq→eq j l,
  bytes_eq→eq l k,
  bytes_eq→eq j k,
  bytes_eq_refl j,
  bytes_eq_refl l,
  bytes_eq_refl k,
)

-- A leaf on the way, the node itself included.
unfoldable pub covered : List Text → TrieNode → Bool
covered [] n = is_leaf n
covered (l ∷ ls) n =
    is_leaf n || elim (get_child l (children n)) [ none ↦ false | some c ↦ covered ls c ]

covered_leaf : (ls : List Text) (n : TrieNode) → is_leaf n ≡ true → covered ls n ≡ true
unfolding covered
covered_leaf [] n h = h
covered_leaf (l ∷ ls) n h = ground arith

pub match_labels-covered :
    (ls : List Text) (n : TrieNode) → is_leaf n ≡ false → match_labels ls n ≡ covered ls n
unfolding covered match_labels
match_labels-covered [] n h = refl
match_labels-covered (l ∷ ls) n h = elim (Option-cases (get_child l (children n))) [
  | inl missing ↦ rw (missing, h, match_labels) refl
  | inr (c, found) ↦
      rw (found, h, match_labels)
        (elim (Bool-cases (is_leaf c)) [
          | inl leaf ↦ rw (leaf, covered_leaf ls c leaf)
          | inr inner ↦ rw (inner, match_labels-covered ls c inner)
        ])
]

covered-new : (ls : List Text) → covered ls new_node ≡ false
unfolding covered get_child
covered-new [] = refl
covered-new (l ∷ ls) = refl

-- The child that an insertion starts from covers what the children covered at its label.
covered-child_or_new :
    (l : Text) (ls : List Text) (n : TrieNode)
    → is_leaf n ≡ false
    → covered ls (child_or_new l (children n)) ≡ covered (l ∷ ls) n
unfolding covered child_or_new
covered-child_or_new l ls n h = elim (Option-cases (get_child l (children n))) [
  | inl missing ↦ rw (missing, h, child_or_new) (covered-new ls)
  | inr (c, found) ↦ rw (found, h, child_or_new) refl
]

covered_other :
    (r l : Text) (x : TrieNode) (ls : List Text) (n : TrieNode)
    → bytes_eq r l ≡ false
    → covered (l ∷ ls) (node (is_leaf n) (put_child r x (children n))) ≡ covered (l ∷ ls) n
unfolding covered
covered_other r l x ls n h = rw (get-put_child l r x (children n), h)

covered_same :
    (l : Text) (x : TrieNode) (ls : List Text) (n : TrieNode)
    → is_leaf n ≡ false
    → covered (l ∷ ls) (node (is_leaf n) (put_child l x (children n))) ≡ covered ls x
unfolding covered
covered_same l x ls n h = rw (h, get-put_child l l x (children n), bytes_eq_refl l)

covered-insert_labels :
    (rs ls : List Text) (n : TrieNode)
    → covered ls (insert_labels rs n) ≡ (covered ls n || begins rs ls)
unfolding insert_labels
covered-insert_labels [] ls n = ground (arith, covered_leaf ls (node true (children n)) refl)
covered-insert_labels (r ∷ rs) [] n = unfold covered in ground arith
covered-insert_labels (r ∷ rs) (l ∷ ls) n =
    let x = insert_labels rs (child_or_new r (children n)) in
    elim (Bool-cases (is_leaf n)) [
      | inl leaf ↦
          rw (covered_leaf (l ∷ ls) n leaf)
            (covered_leaf (l ∷ ls) (node (is_leaf n) (put_child r x (children n))) leaf)
      | inr inner ↦ elim (Bool-cases (bytes_eq r l)) [
        | inr other ↦ ground (arith, covered_other r l x ls n other)
        | inl same ↦
            let e : r ≡ l = bytes_eq→eq r l same in
            ap (λ (t : Text). covered (l ∷ ls) (node (is_leaf n) (put_child t x (children n)))) e
            ∙ covered_same l x ls n inner
            ∙ covered-insert_labels rs ls (child_or_new r (children n))
            ∙ ap (λ (t : Text). covered ls (child_or_new t (children n)) || begins rs ls) e
            ∙ ground (arith, covered-child_or_new l ls n inner)
      ]
    ]

-- The rules inserted in turn.
unfoldable pub insert_all : ReverseDomainRadixTrie → List Text → ReverseDomainRadixTrie
insert_all t [] = t
insert_all t (d ∷ ds) = insert_all (insert t d) ds

new_trie-covered : (domain : Text) → covered (reversed_labels domain) new_trie.root ≡ false
unfolding new_trie
new_trie-covered domain = covered-new (reversed_labels domain)

cons_head-length : (c : ℕ) (ts : List Text) → 0 < length (cons_head c ts)
cons_head-length c [] = omega arith
cons_head-length c (t ∷ ts) = omega arith

-- Is one of the rules the domain or a parent domain of it, label by label?
abbrev pub some_rule : List Text → Text → Bool
some_rule [] domain = false
some_rule (d ∷ ds) domain =
    begins (reversed_labels d) (reversed_labels domain) || some_rule ds domain

pub covered-insert :
    (t : ReverseDomainRadixTrie) (d domain : Text)
    → covered (reversed_labels domain) (insert t d).root ≡ (
        covered (reversed_labels domain) t.root
        || begins (reversed_labels d) (reversed_labels domain))
unfolding insert
covered-insert t d domain =
    covered-insert_labels (reversed_labels d) (reversed_labels domain) t.root

covered-insert_all :
    (t : ReverseDomainRadixTrie) (ds : List Text) (domain : Text)
    → covered (reversed_labels domain) (insert_all t ds).root
      ≡ (covered (reversed_labels domain) t.root || some_rule ds domain)
unfolding insert_all
covered-insert_all t [] domain = ground arith
covered-insert_all t (d ∷ ds) domain =
    ground (arith, covered-insert_all (insert t d) ds domain, covered-insert t d domain)

pub is_leaf-insert_labels :
    (rs : List Text) (n : TrieNode)
    → begins rs [] ≡ false
    → is_leaf (insert_labels rs n) ≡ is_leaf n
unfolding insert_labels
is_leaf-insert_labels [] n h = absurd (cc)
is_leaf-insert_labels (r ∷ rs) n h = refl

begins-nil : (rs : List Text) → 0 < length rs → begins rs [] ≡ false
begins-nil [] h = absurd (omega arith)
begins-nil (r ∷ rs) h = refl

split_nonempty : (c : ℕ) (t : Text) → 0 < length (split c t)
unfolding split
split_nonempty c [] = omega arith
split_nonempty c (x ∷ t) = elim (Bool-cases (x == c)) [
  | inl same ↦ rw same (omega arith)
  | inr other ↦ rw other (cons_head-length x (split c t))
]

pub begins-reversed_labels : (d : Text) → begins (reversed_labels d) [] ≡ false
begins-reversed_labels d =
    begins-nil (reversed_labels d)
      (omega (arith, length-reverse (split b'.' (clean d)), split_nonempty b'.' (clean d)))

is_leaf-insert_all :
    (t : ReverseDomainRadixTrie) (ds : List Text) → is_leaf (insert_all t ds).root ≡ is_leaf t.root
unfolding insert_all insert
is_leaf-insert_all t [] = refl
is_leaf-insert_all t (d ∷ ds) =
    is_leaf-insert_all (insert t d) ds
    ∙ is_leaf-insert_labels (reversed_labels d) t.root (begins-reversed_labels d)

-- After any insertions into a new trie, `match` says of a domain whether one of the rules is the
-- domain itself or a parent domain of it.
pub match-insert_all :
    (ds : List Text) (domain : Text) → match (insert_all new_trie ds) domain ≡ some_rule ds domain
unfolding match
match-insert_all ds domain =
    match_labels-covered (reversed_labels domain) (insert_all new_trie ds).root
      (is_leaf-insert_all new_trie ds ∙ (unfold new_trie in refl))
    ∙ covered-insert_all new_trie ds domain
    ∙ ground (arith, new_trie-covered domain)
