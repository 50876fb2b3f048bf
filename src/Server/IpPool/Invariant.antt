-- ===== src/Server/IpPool/Invariant.antt =====
-- No address is leased twice, and only host addresses of the network are.
use shin_vpn.Prelude.{
  ℕ, zero, suc, ◌+◌, ◌≤◌, ◌<◌, [], ◌∷◌, true, false, Option, none, some, Result, ok, err,
  runtime_error, ◌==◌, if◌then◌else◌, ◌≡◌, ap, arith, ==_iff, inl, inr, Option-cases,
}
use shin_vpn.Prelude.Utf8.{Text}
use shin_vpn.Prelude.Decimal.{show_ipv4}
use shin_vpn.Prelude.Assoc.{
  Assoc, lookup, insert, lookup-insert, lookup-erase, insert-Unique, erase-Unique, Unique,
}
use shin_vpn.Server.IpPool.{
  IPv4Network, IpPool, new_pool, contains, has_value, in_network, free, hosts, first_free,
  preferred, choose, allocate, release,
}

abbrev pub leased : IpPool → ℕ → Option ℕ
leased p session_id = lookup ◌==◌ session_id p.allocated

pub record IsValid (p : IpPool) : Type 0 where
  pub keys : Unique ◌==◌ p.allocated
  pub distinct : (s t ip : ℕ) → leased p s ≡ some ip → leased p t ≡ some ip → s ≡ t
  pub usable :
      (s ip : ℕ)
      → leased p s ≡ some ip
      → (in_network ip p.network ≡ true) × (contains ip p.reserved ≡ false)

first_free_inv :
    (p : IpPool) (h n a : ℕ) → first_free p h n ≡ some a → (h ≤ a) × (a < h + n) × (free p a ≡ true)
unfolding first_free
first_free_inv p h zero a e = absurd (cc)
first_free_inv p h (suc n) a e = ground (arith, first_free_inv p (h + 1) n a)

pub first_free-none :
    (p : IpPool) (h n a : ℕ) → first_free p h n ≡ none → h ≤ a → a < h + n → free p a ≡ false
unfolding first_free
first_free-none p h zero a e l u = absurd (omega arith)
first_free-none p h (suc n) a e l u = ground (arith, first_free-none p (h + 1) n a)

preferred_inv :
    (p : IpPool) (t : Option Text) (a : ℕ)
    → preferred p t ≡ some a
    → (in_network a p.network ≡ true) × (free p a ≡ true)
unfolding preferred
preferred_inv p none a e = absurd (cc)
preferred_inv p (some []) a e = absurd (cc)
preferred_inv p (some (c ∷ t)) a e = ground arith

pub choose_inv :
    (p : IpPool) (t : Option Text) (a : ℕ)
    → choose p t ≡ some a
    → (in_network a p.network ≡ true) × (free p a ≡ true)
unfolding choose hosts
choose_inv p t a e =
    ground (arith, preferred_inv p t a, first_free_inv p (hosts p.network).0 (hosts p.network).1 a)

pub has_value-lookup : (s a : ℕ) (d : Assoc ℕ ℕ) → lookup ◌==◌ s d ≡ some a → has_value a d ≡ true
unfolding lookup
has_value-lookup s a [] e = absurd (cc)
has_value-lookup s a ((k, v) ∷ d) e = ground (arith, has_value-lookup s a d)

-- The pool with one more lease.
unfoldable pub granted : IpPool → ℕ → ℕ → IpPool
granted p s ip = record p { allocated = insert ◌==◌ s ip p.allocated }

pub leased-granted :
    (p : IpPool) (s ip t : ℕ) → leased (granted p s ip) t ≡ (if s == t then some ip else leased p t)
unfolding granted
leased-granted p s ip t = lookup-insert ◌==◌ ==_iff s t ip p.allocated

granted-IsValid :
    (p : IpPool) (s ip : ℕ)
    → IsValid p
    → in_network ip p.network ≡ true
    → free p ip ≡ true
    → IsValid (granted p s ip)
granted-IsValid p s ip v inside unused = record {
  keys = unfold granted in insert-Unique ◌==◌ ==_iff s ip p.allocated v.keys;
  distinct = λ t u a h k. ground (
    arith,
    leased-granted p s ip t,
    leased-granted p s ip u,
    v.distinct t u a,
    has_value-lookup t a p.allocated,
    has_value-lookup u a p.allocated,
  );
  usable = λ t a h. unfold granted in ground (arith, leased-granted p s ip t, v.usable t a);
}

-- The three ways through `allocate`.
pub data Allocated (p : IpPool) (s : ℕ) (t : Option Text) : IpPool × Result Text → Type 0 where
  held :
      {r : IpPool × Result Text} (ip : ℕ)
      → leased p s ≡ some ip
      → r ≡ (p, ok (show_ipv4 ip))
      → Allocated p s t r
  fresh :
      {r : IpPool × Result Text} (ip : ℕ)
      → leased p s ≡ none
      → choose p t ≡ some ip
      → r ≡ (granted p s ip, ok (show_ipv4 ip))
      → Allocated p s t r
  full :
      {r : IpPool × Result Text}
      → leased p s ≡ none
      → choose p t ≡ none
      → r ≡ (p, err runtime_error)
      → Allocated p s t r

module _ (p : IpPool) (s : ℕ) (t : Option Text) where
  allocate-held : (ip : ℕ) → leased p s ≡ some ip → allocate p s t ≡ (p, ok (show_ipv4 ip))
  unfolding allocate
  allocate-held ip old = rw old

  allocate-fresh :
      (ip : ℕ)
      → leased p s ≡ none
      → choose p t ≡ some ip
      → allocate p s t ≡ (granted p s ip, ok (show_ipv4 ip))
  unfolding allocate granted
  allocate-fresh ip new found = rw (new, found)

  allocate-full : leased p s ≡ none → choose p t ≡ none → allocate p s t ≡ (p, err runtime_error)
  unfolding allocate
  allocate-full new nothing = rw (new, nothing)

  pub allocate-Allocated : Allocated p s t (allocate p s t)
  allocate-Allocated = elim (Option-cases (leased p s)) [
    | inl new ↦ elim (Option-cases (choose p t)) [
      | inl nothing ↦ full new nothing (allocate-full new nothing)
      | inr (ip, found) ↦ fresh ip new found (allocate-fresh ip new found)
    ]
    | inr (ip, old) ↦ held ip old (allocate-held ip old)
  ]

network-Allocated :
    {p : IpPool} {s : ℕ} {t : Option Text} {r : IpPool × Result Text}
    → Allocated p s t r
    → r.0.network ≡ p.network
unfolding granted
network-Allocated (held ip old e) = ap (λ (x : IpPool × Result Text). x.0.network) e
network-Allocated (fresh ip new found e) = ap (λ (x : IpPool × Result Text). x.0.network) e
network-Allocated (full new nothing e) = ap (λ (x : IpPool × Result Text). x.0.network) e

pub network-allocate :
    (p : IpPool) (s : ℕ) (t : Option Text) → (allocate p s t).0.network ≡ p.network
network-allocate p s t = network-Allocated (allocate-Allocated p s t)

Allocated-IsValid :
    {p : IpPool} {s : ℕ} {t : Option Text} {r : IpPool × Result Text}
    → Allocated p s t r
    → IsValid p
    → IsValid r.0
Allocated-IsValid (held ip old e) v = rw e v
Allocated-IsValid {p} {s} {t} (fresh ip new found e) v =
    let (inside, unused) = choose_inv p t ip found in rw e (granted-IsValid p s ip v inside unused)
Allocated-IsValid (full new nothing e) v = rw e v

-- `allocate` keeps the pool valid, whether it returns an address or raises.
pub allocate-IsValid :
    (p : IpPool) (s : ℕ) (t : Option Text) → IsValid p → IsValid (allocate p s t).0
allocate-IsValid p s t v = Allocated-IsValid (allocate-Allocated p s t) v

-- `release` keeps the pool valid.
pub release-IsValid : (p : IpPool) (s : ℕ) → IsValid p → IsValid (release p s)
unfolding release
release-IsValid p s v = record {
  keys = erase-Unique ◌==◌ ==_iff s p.allocated v.keys;
  distinct = λ t u a h k. ground (
    arith,
    lookup-erase ◌==◌ ==_iff s t p.allocated,
    lookup-erase ◌==◌ ==_iff s u p.allocated,
    v.distinct t u a,
  );
  usable = λ t a h. ground (arith, lookup-erase ◌==◌ ==_iff s t p.allocated, v.usable t a);
}

-- A new pool is valid.
pub new_pool-IsValid : (n : IPv4Network) (server_ip : ℕ) → IsValid (new_pool n server_ip)
unfolding new_pool lookup
new_pool-IsValid n server_ip = record {
  keys = tt;
  distinct = λ s t ip h k. absurd (cc);
  usable = λ s ip h. absurd (cc);
}
