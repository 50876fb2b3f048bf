-- ===== src/Server/IpPool.antt =====
-- `IPPool` of shinvpn/server/ip_pool.py. An address is its 32-bit number; a network is given by
-- the address and the prefix length that `ipaddress` reads from the text, with strict=False.
pub mod Invariant
pub mod Sessions
use shin_vpn.Prelude.{
  ℕ, zero, suc, ◌+◌, ◌-◌, ◌*◌, ◌/◌, ◌^◌, List, [], ◌∷◌, Bool, true, false, not, ◌&&◌, ◌||◌, Option,
  none, some, Result, ok, err, runtime_error, leb, ltb, ◌==◌, if◌then◌else◌,
}
use shin_vpn.Prelude.Utf8.{Text}
use shin_vpn.Prelude.Decimal.{parse_ipv4, show_ipv4}
use shin_vpn.Prelude.Assoc.{Assoc, lookup, has, insert, erase}

-- ipaddress.IPv4Network: its first and its last address.
pub record IPv4Network : Type 0 where
  pub network_address : ℕ
  pub broadcast_address : ℕ
  pub prefix_len : ℕ

unfoldable pub ipv4_network : ℕ → ℕ → IPv4Network
ipv4_network address prefix_len =
    let size = 2 ^ (32 - prefix_len) in
    record {
      network_address = address / size * size;
      broadcast_address = address / size * size + (size - 1);
      prefix_len = prefix_len;
    }

pub record IpPool : Type 0 where
  pub network : IPv4Network
  pub server_ip : ℕ
  pub allocated : Assoc ℕ ℕ
  pub reserved : List ℕ

unfoldable pub new_pool : IPv4Network → ℕ → IpPool
new_pool network server_ip = record {
  network = network;
  server_ip = server_ip;
  allocated = [];
  reserved = network.network_address ∷ network.broadcast_address ∷ server_ip ∷ [];
}

-- a in s
abbrev pub contains : ℕ → List ℕ → Bool
contains a [] = false
contains a (x ∷ xs) = a == x || contains a xs

-- ip in d.values()
abbrev pub has_value : ℕ → Assoc ℕ ℕ → Bool
has_value a [] = false
has_value a ((k, v) ∷ d) = a == v || has_value a d

-- ip in self.network
abbrev pub in_network : ℕ → IPv4Network → Bool
in_network a n = leb n.network_address a && leb a n.broadcast_address

-- May `a` be given out: neither reserved nor allocated.
abbrev pub free : IpPool → ℕ → Bool
free p a = not (contains a p.reserved) && not (has_value a p.allocated)

-- network.hosts(): where they start, and how many there are.
unfoldable pub hosts : IPv4Network → ℕ × ℕ
hosts n =
    if leb 31 n.prefix_len
    then (n.network_address, n.broadcast_address + 1 - n.network_address)
    else (n.network_address + 1, n.broadcast_address - 1 - n.network_address)

-- The loop over the hosts.
unfoldable pub first_free : IpPool → ℕ → ℕ → Option ℕ
first_free p host zero = none
first_free p host (suc left) =
    let rest = first_free p (host + 1) left in if free p host then some host else rest

-- The preferred address, if it is one and may be given out.
unfoldable pub preferred : IpPool → Option Text → Option ℕ
preferred p none = none
preferred p (some []) = none
preferred p (some (c ∷ t)) = elim (parse_ipv4 (c ∷ t)) [
  | ok cand ↦
      if in_network cand p.network
        && (not (has_value cand p.allocated) && not (contains cand p.reserved))
      then some cand
      else none
  | err e ↦ none
]

assign : IpPool → ℕ → Option ℕ → IpPool × Result Text
assign p session_id none = (p, err runtime_error)
assign p session_id (some ip) =
    (record p { allocated = insert ◌==◌ session_id ip p.allocated }, ok (show_ipv4 ip))

-- The preferred address, or else the first free host.
unfoldable pub choose : IpPool → Option Text → Option ℕ
choose p preferred_ip = elim (preferred p preferred_ip) [
  | some cand ↦ some cand
  | none ↦ first_free p (hosts p.network).0 (hosts p.network).1
]

allocate_new : IpPool → ℕ → Option Text → Option ℕ → IpPool × Result Text
unfolding assign
allocate_new p session_id preferred_ip (some ip) = (p, ok (show_ipv4 ip))
allocate_new p session_id preferred_ip none = assign p session_id (choose p preferred_ip)

unfoldable pub allocate : IpPool → ℕ → Option Text → IpPool × Result Text
unfolding allocate_new
allocate p session_id preferred_ip =
    allocate_new p session_id preferred_ip (lookup ◌==◌ session_id p.allocated)

unfoldable pub release : IpPool → ℕ → IpPool
release p session_id = record p { allocated = erase ◌==◌ session_id p.allocated }

-- The loop over the items.
unfoldable pub session_of : ℕ → Assoc ℕ ℕ → Option ℕ
session_of ip [] = none
session_of ip ((k, v) ∷ d) = if v == ip then some k else session_of ip d

unfoldable pub get_session_by_ip : IpPool → Text → Option ℕ
get_session_by_ip p ip_str = elim (parse_ipv4 ip_str) [
  | ok target_ip ↦ session_of target_ip p.allocated
  | err e ↦ none
]
