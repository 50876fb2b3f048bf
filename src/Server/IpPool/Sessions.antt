-- ===== src/Server/IpPool/Sessions.antt =====
-- What a session gets from the pool, and how an address leads back to its session.
use shin_vpn.Prelude.{
  ℕ, ◌+◌, ◌≤◌, ◌<◌, ◌^◌, [], ◌∷◌, true, false, Option, some, Result, Error, ok, err, runtime_error,
  ◌==◌, ◌≡◌, ◌≢◌, refl, ap, ◌∙◌, arith, ==_iff, inl, inr, Bool-cases,
}
use shin_vpn.Prelude.Utf8.{Text}
use shin_vpn.Prelude.Decimal.{parse_ipv4, show_ipv4, parse_ipv4-show_ipv4}
use shin_vpn.Prelude.Assoc.{Assoc, lookup, Unique, lookup_of_not-has}
use shin_vpn.Server.IpPool.{
  IPv4Network, IpPool, has_value, free, hosts, choose, allocate, session_of, get_session_by_ip,
}
use shin_vpn.Server.IpPool.Invariant.{
  IsValid, leased, leased-granted, Allocated, held, fresh, full, allocate-Allocated,
  allocate-IsValid, first_free-none, network-allocate, has_value-lookup,
}

-- The pool `q` differs from `p` at most in a lease of `ip` for the session `s`.
pub record Leases (p q : IpPool) (s ip : ℕ) : Type 0 where
  pub own : leased q s ≡ some ip
  pub others : (t : ℕ) → s ≢ t → leased q t ≡ leased p t

Leases-Allocated :
    {p : IpPool} {s : ℕ} {t : Option Text} {r : IpPool × Result Text} (x : Text)
    → Allocated p s t r
    → r.1 ≡ ok x
    → (ip : ℕ) × (x ≡ show_ipv4 ip) × Leases p r.0 s ip
Leases-Allocated x (held ip old e) h =
    (ip, ground arith, rw e (record { own = old; others = λ u ne. refl }))
Leases-Allocated {p} {s} x (fresh ip new found e) h = (
  ip,
  ground arith,
  rw e (record {
    own = ground (arith, leased-granted p s ip s);
    others = λ u ne. ground (arith, leased-granted p s ip u);
  }),
)
Leases-Allocated x (full new nothing e) h = absurd (ground arith)

-- An address that `allocate` returns is the session's own from then on; no other session's lease
-- is touched.
pub allocate-Leases :
    (p : IpPool) (s : ℕ) (t : Option Text) (x : Text)
    → (allocate p s t).1 ≡ ok x
    → (ip : ℕ) × (x ≡ show_ipv4 ip) × Leases p (allocate p s t).0 s ip
allocate-Leases p s t x h = Leases-Allocated x (allocate-Allocated p s t) h

Exhausted-Allocated :
    {p : IpPool} {s : ℕ} {t : Option Text} {r : IpPool × Result Text} (e : Error)
    → Allocated p s t r
    → r.1 ≡ err e
    → (e ≡ runtime_error)
      × (r.0 ≡ p)
      × ((a : ℕ)
          → (hosts p.network).0 ≤ a
          → a < (hosts p.network).0 + (hosts p.network).1
          → free p a ≡ false)
Exhausted-Allocated x (held ip old e) h = absurd (ground arith)
Exhausted-Allocated x (fresh ip new found e) h = absurd (ground arith)
Exhausted-Allocated {p} {s} {t} x (full new nothing e) h = (
  ground arith,
  ground arith,
  λ a l u.
      first_free-none p (hosts p.network).0 (hosts p.network).1 a (unfold choose in ground arith) l
        u,
)

-- `allocate` raises only RuntimeError, leaves the pool as it was, and does so only where every
-- host `a` of the network is reserved or leased.
pub allocate_exhausted :
    (p : IpPool) (s : ℕ) (t : Option Text) (e : Error) (a : ℕ)
    → (allocate p s t).1 ≡ err e
    → (hosts p.network).0 ≤ a
    → a < (hosts p.network).0 + (hosts p.network).1
    → (e ≡ runtime_error) × ((allocate p s t).0 ≡ p) × (free p a ≡ false)
allocate_exhausted p s t e a h l u =
    let (kind, same, none_free) = Exhausted-Allocated e (allocate-Allocated p s t) h in
    (kind, same, none_free a l u)

session_of-lookup :
    (ip : ℕ) (d : Assoc ℕ ℕ)
    → Unique ◌==◌ d
    → has_value ip d ≡ true
    → (s : ℕ) × (session_of ip d ≡ some s) × (lookup ◌==◌ s d ≡ some ip)
unfolding session_of lookup
session_of-lookup ip [] u h = absurd (cc)
session_of-lookup ip ((k, v) ∷ d) u h = elim (Bool-cases (v == ip)) [
  | inl same ↦ (k, ground arith, ground arith)
  | inr other ↦
      let (s, found, stored) = session_of-lookup ip d u.1 (ground arith) in
      (s, ground (arith, found), ground (arith, stored, u.0, lookup_of_not-has ◌==◌ ==_iff k d))
]

-- The address that `allocate` returned leads `get_session_by_ip` back to the session.
pub get_session_by_ip-allocate :
    (p : IpPool) (s : ℕ) (t : Option Text) (x : Text)
    → IsValid p
    → p.network.broadcast_address < 2 ^ 32
    → (allocate p s t).1 ≡ ok x
    → get_session_by_ip (allocate p s t).0 x ≡ some s
unfolding get_session_by_ip
get_session_by_ip-allocate p s t x v small h =
    let (ip, is, lease) = allocate-Leases p s t x h in
    let q = (allocate p s t).0 in
    let v' = allocate-IsValid p s t v in
    let (inside, unreserved) = v'.usable s ip lease.own in
    let fits : ip < 2 ^ 32 =
      ground
        (arith, inside, ap (λ (n : IPv4Network). n.broadcast_address) (network-allocate p s t)) in
    let read : parse_ipv4 x ≡ ok ip = ap parse_ipv4 is ∙ parse_ipv4-show_ipv4 ip fits in
    let (u, found, stored) =
      session_of-lookup ip q.allocated v'.keys (has_value-lookup s ip q.allocated lease.own) in
    rw (read, found, get_session_by_ip)
      (ap (λ (y : ℕ). some y) (v'.distinct u s ip stored lease.own))
