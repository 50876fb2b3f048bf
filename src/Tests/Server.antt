-- ===== src/Tests/Server.antt =====
-- A pool of two hosts besides the server.
use shin_vpn.Prelude.{ℕ, none, ok, err, runtime_error, false, ◌≡◌, refl, arith}
use shin_vpn.Prelude.Utf8.{Text}
use shin_vpn.Prelude.Decimal.{show_ipv4, dotted, show_octet}
use shin_vpn.Prelude.Assoc.{lookup, insert}
use shin_vpn.Server.IpPool.{
  IpPool, ipv4_network, new_pool, hosts, first_free, preferred, choose, allocate, free,
}
use shin_vpn.Server.IpPool.Invariant.{IsValid, new_pool-IsValid}
use shin_vpn.Server.IpPool.Sessions.{Leases, allocate-Leases, allocate_exhausted}

-- 10.8.0.0/30, with the server at 10.8.0.1
abbrev pool : IpPool
pool = new_pool (ipv4_network 168296448 30) 168296449

abbrev vip : Text
vip = dotted 10 8 0 2

granted_vip : (allocate pool 5 none).1 ≡ ok vip
unfolding allocate new_pool choose preferred first_free hosts lookup insert ipv4_network show_ipv4
    dotted show_octet
granted_vip = refl

pool_full : (allocate (allocate pool 5 none).0 6 none).1 ≡ err runtime_error
unfolding allocate new_pool choose preferred first_free hosts lookup insert ipv4_network
pool_full = refl

pool-IsValid : IsValid pool
pool-IsValid = new_pool-IsValid (ipv4_network 168296448 30) 168296449

held_example : (ip : ℕ) × (vip ≡ show_ipv4 ip) × Leases pool (allocate pool 5 none).0 5 ip
held_example = allocate-Leases pool 5 none vip granted_vip

exhausted_example :
    (runtime_error ≡ runtime_error)
    × ((allocate (allocate pool 5 none).0 6 none).0 ≡ (allocate pool 5 none).0)
    × (free (allocate pool 5 none).0 168296450 ≡ false)
exhausted_example =
    allocate_exhausted (allocate pool 5 none).0 6 none runtime_error 168296450 pool_full
      (unfold allocate new_pool choose preferred first_free hosts lookup insert ipv4_network in
        omega arith)
      (unfold allocate new_pool choose preferred first_free hosts lookup insert ipv4_network in
        omega arith)
