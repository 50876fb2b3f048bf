-- ===== src/Tests/Tunnel.antt =====
-- The ad blocker, the two hops and the process policy on small inputs.
use shin_vpn.Prelude.{
  ℕ, ◌+◌, ◌*◌, ◌/◌, Bytes, List, [], ◌∷◌, true, false, none, some, replicate, length, ok, ltb,
  Result, bytes_eq, ◌≡◌, refl, arith,
}
use shin_vpn.Prelude.Struct.{le, be, pack_be, pack_le}
use shin_vpn.Prelude.Utf8.{Text, codes, encode, encode_one}
use shin_vpn.Prelude.Decimal.{split}
use shin_vpn.Protocol.Header.{pack}
use shin_vpn.Protocol.Frames.{ShinFrame, to_bytes}
use shin_vpn.Protocol.Frames.MultiHopForward.{
  new_multihop_forward, multihop_payload, next_host, next_port, inner_frame_data,
}
use shin_vpn.Protocol.Parse.{parse_frame}
use shin_vpn.Crypto.Replay.{init}
use shin_vpn.Crypto.Replay.Window.{spent}
use shin_vpn.Crypto.Cipher.{encrypt, build_nonce}
use shin_vpn.Crypto.Handshake.Agreement.{fresh_cipher}
use shin_vpn.Tests.Toys.{toy_aead}
use shin_vpn.Tunnel.Domain.{clean, lower, lstrip, rstrip, join, endswith}
use shin_vpn.Tunnel.Bloom.{
  BloomFilter, add, contains, add_bits, or_byte, get_hashes, hashes_from, has_bits, has_bit,
}
use shin_vpn.Tunnel.Trie.{new_trie, match}
use shin_vpn.Tunnel.Trie.Rules.{insert_all, some_rule, match-insert_all}
use shin_vpn.Tunnel.Adblock.{
  CyberShieldAdBlocker, whitelisted, under_one, add_custom_rules, add_rules, add_rule, verdict,
  bloom_candidate, clear_cache, should_block,
}
use shin_vpn.Tunnel.Adblock.Decision.{Consistent, decision, should_block-decision}
use shin_vpn.Tunnel.Adblock.Rules.{should_block-add_custom_rules}
use shin_vpn.Tunnel.MultiHop.{
  MultiHopTunnel, new_tunnel, encapsulate_packet, decapsulate_packet, forwarded,
}
use shin_vpn.Tunnel.MultiHop.Onion.{decapsulate_packet-encapsulate_packet}
use shin_vpn.Tunnel.Pathfinder.{
  Floats, RelayNodeScore, new_node, find_optimal_hop_pair, pair_from, sorted, place, cost, healthy,
  preferred_node,
}
use shin_vpn.Tunnel.Pathfinder.Diversity.{exit_differs}
use shin_vpn.Tunnel.ProcessRouter.{new_matrix, selected, set_rules, should_route_process, upper}

-- Digests by length.
abbrev digests : Text → ℕ × ℕ
digests t = (length t, 3)

abbrev ads : Text
ads = codes "ads.com"

abbrev sub : Text
sub = codes "x.ads.com"

trie_example : match (insert_all new_trie (ads ∷ [])) sub ≡ some_rule (ads ∷ []) sub
trie_example = match-insert_all (ads ∷ []) sub

trie_run : some_rule (ads ∷ []) sub ≡ true
unfolding clean lower lstrip rstrip split
trie_run = refl

abbrev bloom : BloomFilter
bloom = record { size = 16; num_hashes = 2; bit_array = 0 ∷ 0 ∷ [] }

abbrev bloom_ads : BloomFilter
bloom_ads = record { size = 16; num_hashes = 2; bit_array = 128 ∷ 4 ∷ [] }

abbrev bloom_both : BloomFilter
bloom_both = record { size = 16; num_hashes = 2; bit_array = 128 ∷ 22 ∷ [] }

added_ads : add digests bloom ads ≡ ok bloom_ads
unfolding add add_bits or_byte get_hashes hashes_from
added_ads = refl

abbrev blocker : CyberShieldAdBlocker
blocker = record {
  enabled = true;
  malware_enabled = true;
  bloom = bloom;
  trie = new_trie;
  whitelist = codes "ok.net" ∷ [];
  lru_cache = (codes "seen.org", false) ∷ [];
  blocked_queries_count = 0;
  total_queries_processed = 0;
  last_blocked_domain = none;
  recent_blocked_log = [];
}

cache_checked : verdict digests (codes "seen.org") bloom new_trie ≡ ok false
unfolding verdict bloom_candidate contains has_bits has_bit get_hashes hashes_from split join
cache_checked = refl

decision_example :
    Consistent digests (should_block digests [] sub blocker).0
    × ((should_block digests [] sub blocker).1 ≡ decision digests sub blocker)
decision_example =
    should_block-decision digests [] sub blocker (record { entries = (cache_checked, tt) })

blocked_example :
    (should_block digests []
      (codes "Ads.com.")
      (add_custom_rules digests (codes "Ads.com." ∷ []) blocker).0).1
    ≡ ok true
blocked_example =
    should_block-add_custom_rules digests blocker
      (add_custom_rules digests (codes "Ads.com." ∷ []) blocker).0 [] (codes "Ads.com.") refl
      (unfold new_trie in refl) (unfold clean lower lstrip rstrip in refl)
      (unfold whitelisted under_one endswith clean lower lstrip rstrip in refl)
      (unfold clean lower lstrip rstrip split in omega arith)
      (unfold add_custom_rules add_rules add_rule clear_cache add add_bits or_byte get_hashes
          hashes_from clean lower lstrip rstrip in
        refl)

abbrev tunnel : MultiHopTunnel
tunnel =
    new_tunnel (codes "a.b", 1) (codes "c.d", 2) (fresh_cipher (replicate 32 1) 5 true)
      (fresh_cipher (replicate 32 2) 6 true)

abbrev exit_end : MultiHopTunnel
exit_end =
    new_tunnel (codes "a.b", 1) (codes "c.d", 2) (fresh_cipher (replicate 32 1) 5 false)
      (fresh_cipher (replicate 32 2) 6 false)

abbrev onion : MultiHopTunnel × Result Bytes
onion = encapsulate_packet toy_aead (104 ∷ 105 ∷ []) tunnel

abbrev onion_raw : Bytes
onion_raw =
    83 ∷ 72 ∷ 73 ∷ 78 ∷ 1 ∷ 13 ∷ 0 ∷ 0 ∷ 0 ∷ 5 ∷ 0 ∷ 0 ∷ 0 ∷ 0 ∷ 0 ∷ 0 ∷ 0 ∷ 0 ∷ 0 ∷ 44 ∷ 3 ∷ 99
    ∷ 46 ∷ 100 ∷ 0 ∷ 2 ∷ 83 ∷ 72 ∷ 73 ∷ 78 ∷ 1 ∷ 3 ∷ 0 ∷ 0 ∷ 0 ∷ 6 ∷ 0 ∷ 0 ∷ 0 ∷ 0 ∷ 0 ∷ 0 ∷ 0 ∷ 1
    ∷ 0 ∷ 18 ∷ 104 ∷ 105 ∷ 7 ∷ 7 ∷ 7 ∷ 7 ∷ 7 ∷ 7 ∷ 7 ∷ 7 ∷ 7 ∷ 7 ∷ 7 ∷ 7 ∷ 7 ∷ 7 ∷ 7 ∷ 7 ∷ []

onion_example :
    (f : ShinFrame) × (inner : Bytes) × (parse_frame 0 onion_raw ≡ ok f)
    × (next_host f ≡ ok (codes "c.d"))
    × (next_port f ≡ ok 2)
    × (inner_frame_data f ≡ ok inner)
    × ((decapsulate_packet toy_aead 0 inner exit_end).1 ≡ some (104 ∷ 105 ∷ []))
unfolding new_tunnel
onion_example =
    decapsulate_packet-encapsulate_packet toy_aead 0 tunnel onion.0 exit_end (104 ∷ 105 ∷ [])
      onion_raw
      (unfold encapsulate_packet forwarded new_tunnel encrypt build_nonce pack_le pack_be le be
          to_bytes pack new_multihop_forward multihop_payload encode encode_one in
        refl)
      (unfold new_tunnel in record { key = refl; session = refl }) (unfold new_tunnel in refl)
      (unfold new_tunnel spent init in refl)

-- Natural numbers in the place of floats, rounded down.
abbrev whole : Floats ℕ
whole = record { plus = ◌+◌; times = ◌*◌; less = ltb; literal = λ n d. n / d }

abbrev nodes : List (Text × RelayNodeScore ℕ)
nodes =
    (codes "near", new_node whole 0 (codes "near") (codes "1.1.1.1") 1 5)
    ∷ (codes "far", new_node whole 0 (codes "far") (codes "2.2.2.2") 1 50)
    ∷ []

exit_example :
    bytes_eq
      (find_optimal_hop_pair whole none (some (codes "near")) nodes 0).1.node_id
      (find_optimal_hop_pair whole none (some (codes "near")) nodes 0).0.node_id
    ≡ false
exit_example =
    exit_differs whole none (some (codes "near")) nodes 0 (unfold new_node in (refl, (refl, tt))) (
      unfold find_optimal_hop_pair pair_from sorted place cost healthy preferred_node new_node in
      refl)

route_run :
    should_route_process
      (set_rules true (codes "exclusive") (codes " Curl.exe" ∷ []) new_matrix)
      (codes "curl.EXE")
    ≡ true
unfolding should_route_process set_rules upper selected lower lstrip rstrip
route_run = refl
