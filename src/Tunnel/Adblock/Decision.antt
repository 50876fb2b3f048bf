-- ===== src/Tunnel/Adblock/Decision.antt =====
-- What `should_block` answers, and that the cache never changes an answer.
use shin_vpn.Prelude.{
  ℕ, ◌+◌, [], ◌∷◌, Bool, true, false, not, ◌||◌, if◌then◌else◌, Option, none, some, Result, ok, err,
  is_empty, bytes_eq, bytes_eq→eq, drop, leb, length, All, All-drop, All-append, ◌≡◌, refl, sym,
  ◌∙◌, arith, Bool-cases, inl, inr,
}
use shin_vpn.Prelude.Assoc.{Assoc, lookup, insert, erase}
use shin_vpn.Prelude.Utf8.{Text}
use shin_vpn.Tunnel.Domain.{clean}
use shin_vpn.Tunnel.Bloom.{BloomFilter}
use shin_vpn.Tunnel.Trie.{ReverseDomainRadixTrie}
use shin_vpn.Tunnel.Adblock.{
  CyberShieldAdBlocker, cache_capacity, whitelisted, cached, moved_to_end, record_blocked, verdict,
  answered, looked_up, decide, should_block,
}

module _ (digests : Text → ℕ × ℕ) where
  -- An entry of the cache that the filter and the trie agree with.
  abbrev pub Agrees : BloomFilter → ReverseDomainRadixTrie → Text × Bool → Type 0
  Agrees bloom trie (d, b) = verdict digests d bloom trie ≡ ok b

  pub record Consistent (s : CyberShieldAdBlocker) : Type 0 where
    pub entries : All (Agrees s.bloom s.trie) s.lru_cache

  module _ (bloom : BloomFilter) (trie : ReverseDomainRadixTrie) where
    All-insert :
        (d : Text) (b : Bool) (cache : Assoc Text Bool)
        → All (Agrees bloom trie) cache
        → verdict digests d bloom trie ≡ ok b
        → All (Agrees bloom trie) (insert bytes_eq d b cache)
    unfolding insert
    All-insert d b [] h v = (v, tt)
    All-insert d b ((j, w) ∷ cache) h v = elim (Bool-cases (bytes_eq j d)) [
      | inl same ↦ rw same ((rw (bytes_eq→eq j d same) v), h.1)
      | inr other ↦ rw other (h.0, All-insert d b cache h.1 v)
    ]

    All-erase :
        (d : Text) (cache : Assoc Text Bool)
        → All (Agrees bloom trie) cache
        → All (Agrees bloom trie) (erase bytes_eq d cache)
    unfolding erase
    All-erase d [] h = tt
    All-erase d ((j, w) ∷ cache) h = elim (Bool-cases (bytes_eq j d)) [
      | inl same ↦ rw same (All-erase d cache h.1)
      | inr other ↦ rw other (h.0, All-erase d cache h.1)
    ]

    All-cached :
        (d : Text) (b : Bool) (cache : Assoc Text Bool)
        → All (Agrees bloom trie) cache
        → verdict digests d bloom trie ≡ ok b
        → All (Agrees bloom trie) (cached d b cache)
    unfolding cached
    All-cached d b cache h v = elim (Bool-cases (leb cache_capacity (length cache))) [
      | inl full ↦
          rw full (All-insert d b (drop 1 cache) (All-drop (Agrees bloom trie) 1 cache h) v)
      | inr room ↦ rw room (All-insert d b cache h v)
    ]

    All-lookup :
        (d : Text) (b : Bool) (cache : Assoc Text Bool)
        → All (Agrees bloom trie) cache
        → lookup bytes_eq d cache ≡ some b
        → verdict digests d bloom trie ≡ ok b
    unfolding lookup
    All-lookup d b [] h e = absurd (cc)
    All-lookup d b ((j, w) ∷ cache) h e = elim (Bool-cases (bytes_eq j d)) [
      | inl same ↦ rw (← bytes_eq→eq j d same) (h.0 ∙ ground (arith, same, e))
      | inr other ↦ All-lookup d b cache h.1 (ground (arith, other, e))
    ]

  -- What the answer is without a cache: a domain that is white-listed, or asked for while the
  -- filter is off, or empty, is let through.
  unfoldable pub decision : Text → CyberShieldAdBlocker → Result Bool
  decision domain s =
      if not s.enabled || is_empty (clean domain)
      then ok false
      else if whitelisted (clean domain) s.whitelist
      then ok false
      else verdict digests (clean domain) s.bloom s.trie

  answered-keeps :
      (now d : Text) (b : Bool) (s : CyberShieldAdBlocker)
      → Consistent s
      → Consistent (answered digests now d b s).0 × ((answered digests now d b s).1 ≡ ok b)
  unfolding answered record_blocked
  answered-keeps now d true s c = (record { entries = c.entries }, refl)
  answered-keeps now d false s c = (c, refl)

  looked_up-keeps :
      (now d : Text) (o : Option Bool) (s : CyberShieldAdBlocker)
      → lookup bytes_eq d s.lru_cache ≡ o
      → Consistent s
      → Consistent (looked_up digests now d o s).0
        × ((looked_up digests now d o s).1 ≡ verdict digests d s.bloom s.trie)
  unfolding looked_up moved_to_end
  looked_up-keeps now d (some b) s o c =
      let v = All-lookup s.bloom s.trie d b s.lru_cache c.entries o in
      let s' = record s { lru_cache = moved_to_end d b s.lru_cache } in
      let kept : Consistent s' = record {
        entries =
            All-append (Agrees s.bloom s.trie) (erase bytes_eq d s.lru_cache) ((d, b) ∷ [])
              (All-erase s.bloom s.trie d s.lru_cache c.entries) (v, tt);
      } in
      let (after, answer) = answered-keeps now d b s' kept in (after, answer ∙ sym v)
  looked_up-keeps now d none s o c = by_verdict (verdict digests d s.bloom s.trie) refl
    where
      by_verdict :
          (r : Result Bool)
          → verdict digests d s.bloom s.trie ≡ r
          → Consistent (looked_up digests now d none s).0
            × ((looked_up digests now d none s).1 ≡ verdict digests d s.bloom s.trie)
      by_verdict (ok b) v =
          let s' = record s { lru_cache = cached d b s.lru_cache } in
          let kept : Consistent s' = record {
            entries = All-cached s.bloom s.trie d b s.lru_cache c.entries v;
          } in
          rw v (answered-keeps now d b s' kept)
      by_verdict (err e) v = rw v (c, refl)

  decide-keeps :
      (now d : Text) (s : CyberShieldAdBlocker)
      → Consistent s
      → Consistent (decide digests now d s).0
        × ((decide digests now d s).1
            ≡ (if whitelisted d s.whitelist then ok false else verdict digests d s.bloom s.trie))
  unfolding decide
  decide-keeps now d s c = elim (Bool-cases (whitelisted d s.whitelist)) [
    | inl listed ↦ rw listed (c, refl)
    | inr other ↦ rw other (looked_up-keeps now d (lookup bytes_eq d s.lru_cache) s refl c)
  ]

  -- While the entries of the cache agree with the filter and the trie, `should_block` answers as
  -- it would without a cache, errors included, and the entries agree afterwards too.
  pub should_block-decision :
      (now domain : Text) (s : CyberShieldAdBlocker)
      → Consistent s
      → Consistent (should_block digests now domain s).0
        × ((should_block digests now domain s).1 ≡ decision domain s)
  unfolding should_block decision
  should_block-decision now domain s c =
      elim (Bool-cases (not s.enabled || is_empty (clean domain))) [
        | inl skip ↦ rw skip (c, refl)
        | inr go ↦ rw go (
            decide-keeps now (clean domain)
              (record s { total_queries_processed = s.total_queries_processed + 1 })
              (record { entries = c.entries }))
      ]
