-- ===== src/Tunnel/Adblock.antt =====
-- `CyberShieldAdBlocker` of shinvpn/tunnel/adblock.py. The lock makes each call one step; `now` is
-- the text that time.strftime returns.
pub mod Decision
pub mod Rules
use shin_vpn.Prelude.{
  ℕ, ◌+◌, ◌-◌, List, [], ◌∷◌, ◌++◌, Bool, true, false, not, ◌&&◌, ◌||◌, if◌then◌else◌, leb, ltb,
  Option, none, some, Result, ok, err, is_empty, length, drop, bytes_eq, map,
}
use shin_vpn.Prelude.Errors
use shin_vpn.Prelude.Exec.{Exec, pure, lift, gets, modify, ◌>>=◌, ◌>>◌}
use shin_vpn.Prelude.Assoc.{Assoc, lookup, insert, erase}
use shin_vpn.Prelude.Utf8.{Text, codes}
use shin_vpn.Tunnel.Domain.{clean, labels, join, endswith}
use shin_vpn.Tunnel.Bloom.{BloomFilter, new_bloom, add, contains}
use shin_vpn.Tunnel.Trie.{ReverseDomainRadixTrie, new_trie, match}
use shin_vpn.Tunnel.Trie

abbrev pub core_ad_and_tracker_domains : List Text
core_ad_and_tracker_domains =
    codes "doubleclick.net"
    ∷ codes "googleadservices.com"
    ∷ codes "googlesyndication.com"
    ∷ codes "google-analytics.com"
    ∷ codes "adservice.google.com"
    ∷ codes "pagead2.googlesyndication.com"
    ∷ codes "admob.com"
    ∷ codes "pixel.facebook.com"
    ∷ codes "an.facebook.com"
    ∷ codes "graph.facebook.com"
    ∷ codes "telemetry.microsoft.com"
    ∷ codes "v10.events.data.microsoft.com"
    ∷ codes "v20.events.data.microsoft.com"
    ∷ codes "watson.telemetry.microsoft.com"
    ∷ codes "v10.vortex-win.data.microsoft.com"
    ∷ codes "adnxs.com"
    ∷ codes "criteo.com"
    ∷ codes "rubiconproject.com"
    ∷ codes "pubmatic.com"
    ∷ codes "openx.net"
    ∷ codes "taboola.com"
    ∷ codes "outbrain.com"
    ∷ codes "scorecardresearch.com"
    ∷ codes "quantserve.com"
    ∷ codes "moatads.com"
    ∷ codes "exponential.com"
    ∷ codes "advertising.com"
    ∷ codes "advertising.amazon.com"
    ∷ codes "amazon-adsystem.com"
    ∷ codes "casalemedia.com"
    ∷ codes "zedo.com"
    ∷ codes "chitika.net"
    ∷ codes "inmobi.com"
    ∷ codes "chartbeat.net"
    ∷ codes "segment.io"
    ∷ codes "hotjar.com"
    ∷ codes "mixpanel.com"
    ∷ codes "optimizely.com"
    ∷ codes "crazyegg.com"
    ∷ codes "mouseflow.com"
    ∷ codes "kissmetrics.com"
    ∷ codes "coinhive.com"
    ∷ codes "coin-hive.com"
    ∷ codes "crypto-loot.com"
    ∷ codes "minr.pw"
    ∷ codes "webminepool.com"
    ∷ codes "jsecoin.com"
    ∷ codes "badsite-malware.com"
    ∷ codes "phishing-test-domain.club"
    ∷ []

pub record CyberShieldAdBlocker : Type 0 where
  pub enabled : Bool
  pub malware_enabled : Bool
  pub bloom : BloomFilter
  pub trie : ReverseDomainRadixTrie
  pub whitelist : List Text
  pub lru_cache : Assoc Text Bool
  pub blocked_queries_count : ℕ
  pub total_queries_processed : ℕ
  pub last_blocked_domain : Option Text
  pub recent_blocked_log : List (Text × Text)

abbrev pub cache_capacity : ℕ
cache_capacity = 10000

-- __init__, before the core lists are loaded.
unfoldable pub empty_blocker : Bool → Bool → CyberShieldAdBlocker
empty_blocker enable_adblock enable_malware_block = record {
  enabled = enable_adblock;
  malware_enabled = enable_malware_block;
  bloom = new_bloom 262144 4;
  trie = new_trie;
  whitelist = codes "delusional.club" ∷ [];
  lru_cache = [];
  blocked_queries_count = 0;
  total_queries_processed = 0;
  last_blocked_domain = none;
  recent_blocked_log = [];
}

-- t in ts
abbrev pub text_in : Text → List Text → Bool
text_in t [] = false
text_in t (x ∷ xs) = bytes_eq x t || text_in t xs

-- A set of texts: add and discard.

abbrev pub set_add : Text → List Text → List Text
set_add t ts = if text_in t ts then ts else t ∷ ts

unfoldable pub set_discard : Text → List Text → List Text
set_discard t [] = []
set_discard t (x ∷ xs) = let rest = set_discard t xs in if bytes_eq x t then rest else x ∷ rest

-- d.endswith("." + w) for an entry.
unfoldable pub under_one : Text → List Text → Bool
under_one d [] = false
under_one d (w ∷ ws) = endswith d (b'.' ∷ w) || under_one d ws

unfoldable pub whitelisted : Text → List Text → Bool
whitelisted d ws = text_in d ws || under_one d ws

-- `_cache_result`: a full cache loses its oldest entry first.
unfoldable pub cached : Text → Bool → Assoc Text Bool → Assoc Text Bool
cached d blocked cache =
    insert bytes_eq d blocked (if leb cache_capacity (length cache) then drop 1 cache else cache)

-- move_to_end, of an entry that is there.
unfoldable pub moved_to_end : Text → Bool → Assoc Text Bool → Assoc Text Bool
moved_to_end d blocked cache = erase bytes_eq d cache ++ ((d, blocked) ∷ [])

unfoldable pub record_blocked : Text → Text → CyberShieldAdBlocker → CyberShieldAdBlocker
record_blocked now d s =
    let log = s.recent_blocked_log ++ ((d, now) ∷ []) in
    record s {
      blocked_queries_count = s.blocked_queries_count + 1;
      last_blocked_domain = some d;
      recent_blocked_log = if ltb 50 (length log) then drop 1 log else log;
    }

unfoldable pub toggle : CyberShieldAdBlocker → CyberShieldAdBlocker × Bool
toggle s = (record s { enabled = not s.enabled }, not s.enabled)

pub record Stats : Type 0 where
  pub enabled : Bool
  pub rules_loaded : ℕ
  pub blocked_queries_count : ℕ
  pub total_queries_processed : ℕ
  pub last_blocked_domain : Option Text
  pub whitelist_count : ℕ
  pub recent_blocked : List (Text × Text)

unfoldable pub get_stats : CyberShieldAdBlocker → Stats
get_stats s = record {
  enabled = s.enabled;
  rules_loaded = s.trie.total_rules;
  blocked_queries_count = s.blocked_queries_count;
  total_queries_processed = s.total_queries_processed;
  last_blocked_domain = s.last_blocked_domain;
  whitelist_count = length s.whitelist;
  recent_blocked = s.recent_blocked_log;
}

unfoldable pub clear_cache : CyberShieldAdBlocker → CyberShieldAdBlocker
clear_cache s = record s { lru_cache = [] }

-- The loop of add_whitelist.
unfoldable pub with_whitelist : List Text → List Text → List Text
with_whitelist [] ws = ws
with_whitelist (d ∷ ds) ws =
    with_whitelist ds (if is_empty (clean d) then ws else set_add (clean d) ws)

unfoldable pub add_whitelist : List Text → CyberShieldAdBlocker → CyberShieldAdBlocker
add_whitelist ds s = clear_cache (record s { whitelist = with_whitelist ds s.whitelist })

unfoldable pub remove_whitelist : Text → CyberShieldAdBlocker → CyberShieldAdBlocker
remove_whitelist d s = clear_cache (record s { whitelist = set_discard (clean d) s.whitelist })

module _ (digests : Text → ℕ × ℕ) where
  -- self._trie.insert(d); self._bloom.add(d)
  unfoldable pub add_rule : Text → Exec CyberShieldAdBlocker (Unit {0})
  add_rule d = do
    modify (λ s. record s { trie = Trie.insert s.trie d })
    s ← gets (λ s. s)
    bloom ← lift (add digests s.bloom d)
    modify (λ s. record s { bloom = bloom })

  -- self._bloom.add(".".join(labels[i:])) for every i
  unfoldable pub add_suffixes : List Text → BloomFilter → Result BloomFilter
  add_suffixes [] b = ok b
  add_suffixes (l ∷ ls) b = Errors.◌>>=◌ (add digests b (join (l ∷ ls))) (add_suffixes ls)

  unfoldable pub load_core_blocklists : List Text → Exec CyberShieldAdBlocker (Unit {0})
  load_core_blocklists [] = pure tt
  load_core_blocklists (domain ∷ rest) =
      let more = load_core_blocklists rest in
      if is_empty (clean domain) then more else do
        add_rule (clean domain)
        s ← gets (λ s. s)
        bloom ← lift (add_suffixes (labels (clean domain)) s.bloom)
        modify (λ s. record s { bloom = bloom })
        more

  unfoldable pub new_blocker : Bool → Bool → CyberShieldAdBlocker × Result (Unit {0})
  new_blocker enable_adblock enable_malware_block =
      load_core_blocklists core_ad_and_tracker_domains
        (empty_blocker enable_adblock enable_malware_block)

  -- The loop of add_custom_rules.
  unfoldable pub add_rules : List Text → Exec CyberShieldAdBlocker (Unit {0})
  add_rules [] = pure tt
  add_rules (d ∷ ds) = do
    s ← gets (λ s. s)
    if is_empty (clean d) || text_in (clean d) s.whitelist then pure tt else add_rule (clean d)
    add_rules ds

  unfoldable pub add_custom_rules : List Text → Exec CyberShieldAdBlocker (Unit {0})
  add_custom_rules ds = do add_rules ds; modify clear_cache

  -- Is the domain, or a parent domain of two labels at least, in the Bloom filter?
  unfoldable pub bloom_candidate : List Text → BloomFilter → Result Bool
  bloom_candidate [] b = ok false
  bloom_candidate (l ∷ ls) b =
      let rest = bloom_candidate ls b in
      if is_empty ls
      then ok false
      else (Errors.◌>>=◌ (contains digests b (join (l ∷ ls)))
          λ there. if there then ok true else rest)

  -- What the filter and the trie say, without the cache.
  unfoldable pub verdict : Text → BloomFilter → ReverseDomainRadixTrie → Result Bool
  verdict d bloom trie =
      Errors.◌>>=◌ (bloom_candidate (labels d) bloom)
        λ candidate. ok (if candidate then match trie d else false)

  unfoldable pub answered : Text → Text → Bool → Exec CyberShieldAdBlocker Bool
  answered now d blocked = do
    modify (λ s. if blocked then record_blocked now d s else s)
    pure blocked

  -- After the white list: the cache, or else the filter and the trie.
  unfoldable pub looked_up : Text → Text → Option Bool → Exec CyberShieldAdBlocker Bool
  looked_up now d (some blocked) = do
    modify (λ s. record s { lru_cache = moved_to_end d blocked s.lru_cache })
    answered now d blocked
  looked_up now d none = do
    s ← gets (λ s. s)
    blocked ← lift (verdict d s.bloom s.trie)
    modify (λ s. record s { lru_cache = cached d blocked s.lru_cache })
    answered now d blocked

  unfoldable pub decide : Text → Text → Exec CyberShieldAdBlocker Bool
  decide now d = do
    s ← gets (λ s. s)
    if whitelisted d s.whitelist
        then pure false
        else looked_up now d (lookup bytes_eq d s.lru_cache)

  unfoldable pub should_block : Text → Text → Exec CyberShieldAdBlocker Bool
  should_block now domain = do
    s ← gets (λ s. s)
    if not s.enabled || is_empty (clean domain)
        then pure false
        else (modify (λ s. record s { total_queries_processed = s.total_queries_processed + 1 })
            >> decide now (clean domain))
