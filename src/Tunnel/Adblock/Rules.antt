-- ===== src/Tunnel/Adblock/Rules.antt =====
-- A rule that is added blocks.
use shin_vpn.Prelude.{
  ℕ, ◌≤◌, ◌<◌, List, [], ◌∷◌, true, false, Result, ok, err, is_empty, bytes_eq_refl, length, ◌≡◌,
  refl, sym, ap, ◌∙◌, arith, Bool-cases, inl, inr, ◌==◌, ==_iff,
}
use shin_vpn.Prelude.Utf8.{Text}
use shin_vpn.Prelude.Decimal.{split, cons_head}
use shin_vpn.Tunnel.Domain.{clean, labels, join}
use shin_vpn.Tunnel.Bloom.{BloomFilter, add, contains}
use shin_vpn.Tunnel.Bloom.Members.{contains-add}
use shin_vpn.Tunnel.Trie.{ReverseDomainRadixTrie, is_leaf, match, reversed_labels}
use shin_vpn.Tunnel.Trie
use shin_vpn.Tunnel.Trie.Rules.{
  begins, match_labels-covered, covered-insert, is_leaf-insert_labels, begins-reversed_labels,
}
use shin_vpn.Tunnel.Adblock.{
  CyberShieldAdBlocker, text_in, whitelisted, clear_cache, add_rule, add_rules, add_custom_rules,
  bloom_candidate, verdict, should_block,
}
use shin_vpn.Tunnel.Adblock.Decision.{Consistent, decision, should_block-decision}

join-cons_head : (c : ℕ) (ts : List Text) → 0 < length ts → join (cons_head c ts) ≡ c ∷ join ts
unfolding join
join-cons_head c [] h = absurd (omega arith)
join-cons_head c (t ∷ []) h = refl
join-cons_head c (t ∷ u ∷ ts) h = refl

length-split : (c : ℕ) (t : Text) → 0 < length (split c t)
unfolding split
length-split c [] = omega arith
length-split c (x ∷ t) = elim (Bool-cases (x == c)) [
  | inl same ↦ rw same (omega arith)
  | inr other ↦ rw other (length-cons_head x (split c t))
]
  where
    length-cons_head : (c : ℕ) (ts : List Text) → 0 < length (cons_head c ts)
    length-cons_head c [] = omega arith
    length-cons_head c (t ∷ ts) = omega arith

join_nil : (ts : List Text) → 0 < length ts → join ([] ∷ ts) ≡ b'.' ∷ join ts
unfolding join
join_nil [] h = absurd (omega arith)
join_nil (t ∷ ts) h = refl

-- ".".join(t.split(".")) is t.
join-split : (t : Text) → join (split b'.' t) ≡ t
unfolding split
join-split [] = unfold join in refl
join-split (x ∷ t) = elim (Bool-cases (x == b'.')) [
  | inl same ↦ rw same (
      join_nil (split b'.' t) (length-split b'.' t)
      ∙ ap (◌∷◌ b'.') (join-split t)
      ∙ ap (λ (y : ℕ). y ∷ t) (sym ((==_iff x b'.').0 same)))
  | inr other ↦
      rw other (join-cons_head x (split b'.' t) (length-split b'.' t) ∙ ap (◌∷◌ x) (join-split t))
]

begins_refl : (ls : List Text) → begins ls ls ≡ true
begins_refl [] = refl
begins_refl (l ∷ ls) = ground (arith, bytes_eq_refl l, begins_refl ls)

match-insert :
    (t : ReverseDomainRadixTrie) (d : Text)
    → is_leaf t.root ≡ false
    → match (Trie.insert t d) d ≡ true
unfolding match
match-insert t d h =
    match_labels-covered (reversed_labels d) (Trie.insert t d).root (
      unfold Trie.insert in
      is_leaf-insert_labels (reversed_labels d) t.root (begins-reversed_labels d) ∙ h)
    ∙ covered-insert t d d
    ∙ ground (arith, begins_refl (reversed_labels d))

module _ (digests : Text → ℕ × ℕ) where
  candidate_whole :
      (ls : List Text) (b : BloomFilter)
      → 2 ≤ length ls
      → contains digests b (join ls) ≡ ok true
      → bloom_candidate digests ls b ≡ ok true
  unfolding bloom_candidate
  candidate_whole [] b h e = absurd (omega arith)
  candidate_whole (l ∷ []) b h e = absurd (omega arith)
  candidate_whole (l ∷ k ∷ ls) b h e = rw e refl

  -- The object after one rule was added.
  with_rule : CyberShieldAdBlocker → Text → BloomFilter → CyberShieldAdBlocker
  with_rule s d bloom = record s { trie = Trie.insert s.trie d; bloom = bloom; lru_cache = [] }

  add_custom_rules_inv :
      (s s' : CyberShieldAdBlocker) (d : Text)
      → is_empty (clean d) ≡ false
      → text_in (clean d) s.whitelist ≡ false
      → add_custom_rules digests (d ∷ []) s ≡ (s', ok tt)
      → (bloom : BloomFilter) × (add digests s.bloom (clean d) ≡ ok bloom)
        × (s' ≡ with_rule s (clean d) bloom)
  unfolding add_custom_rules add_rules add_rule clear_cache with_rule
  add_custom_rules_inv s s' d f w e = by_add (add digests s.bloom (clean d)) refl
    where
      by_add :
          (r : Result BloomFilter)
          → add digests s.bloom (clean d) ≡ r
          → (bloom : BloomFilter) × (add digests s.bloom (clean d) ≡ ok bloom)
            × (s' ≡ with_rule s (clean d) bloom)
      by_add (ok bloom) r = (bloom, r, sym (ap (λ x. x.0) (rw (f, w, r) at e)))
      by_add (err x) r = let failed = rw (f, w, r) at e in absurd (cc)

  -- After a rule of two labels at least was added, `should_block` answers yes for its domain, if
  -- the domain is not white-listed, nor empty, and the filter is on.
  pub should_block-add_custom_rules :
      (s s' : CyberShieldAdBlocker) (now d : Text)
      → s.enabled ≡ true
      → is_leaf s.trie.root ≡ false
      → is_empty (clean d) ≡ false
      → whitelisted (clean d) s.whitelist ≡ false
      → 2 ≤ length (labels (clean d))
      → add_custom_rules digests (d ∷ []) s ≡ (s', ok tt)
      → (should_block digests now d s').1 ≡ ok true
  unfolding with_rule verdict decision whitelisted
  should_block-add_custom_rules s s' now d on root f w two e =
      let unlisted : text_in (clean d) s.whitelist ≡ false = ground arith in
      let (bloom, added, is) = add_custom_rules_inv s s' d f unlisted e in
      let r = with_rule s (clean d) bloom in
      let member : contains digests bloom (join (labels (clean d))) ≡ ok true =
        ap (λ (x : Text). contains digests bloom x) (join-split (clean d))
        ∙ contains-add digests s.bloom bloom (clean d) added in
      let candidate = candidate_whole (labels (clean d)) bloom two member in
      let matched = match-insert s.trie (clean d) root in
      let plain : Consistent digests r = record { entries = tt } in
      let says : verdict digests (clean d) bloom (Trie.insert s.trie (clean d)) ≡ ok true =
        rw (candidate, matched) refl in
      let decides : decision digests d r ≡ ok true = rw (on, f, w) says in
      ap (λ (x : CyberShieldAdBlocker). (should_block digests now d x).1) is
      ∙ (should_block-decision digests now d r plain).1
      ∙ decides
