-- ===== src/Crypto/Profiles/Addresses.antt =====
-- The addresses that profiles get.
use shin_vpn.Prelude.{
  ℕ, ◌+◌, [], ◌∷◌, Bool, true, false, if◌then◌else◌, some, ◌≡◌, refl, sym, ap, ◌∙◌, ◌↔◌, length,
  arith, bytes_eq, bytes_eq_refl, bytes_eq→eq, Bool-cases, inl, inr, suc,
}
use shin_vpn.Prelude.Utf8.{Text}
use shin_vpn.Prelude.Assoc.{
  Assoc, Unique, lookup, has, insert, erase, lookup-insert, lookup-erase, has-insert, insert-Unique,
}
use shin_vpn.Prelude.Json.{JsonFiles}
use shin_vpn.Crypto.Keys.{KeyPair}
use shin_vpn.Crypto.Profiles.{
  DeviceProfile, ProfileManager, save_profiles, vip_of, new_profile, create_profile, delete_profile,
}

text_eq_iff : (a b : Text) → (bytes_eq a b ≡ true) ↔ (a ≡ b)
text_eq_iff a b = (bytes_eq→eq a b, λ e. rw e (bytes_eq_refl b))

length-insert_new :
    (k : Text) (p : DeviceProfile) (d : Assoc Text DeviceProfile)
    → has bytes_eq k d ≡ false
    → length (insert bytes_eq k p d) ≡ length d + 1
unfolding has insert
length-insert_new k p [] h = omega arith
length-insert_new k p ((j, q) ∷ d) h = ground (arith, length-insert_new k p d)

length-erase_absent :
    (k : Text) (d : Assoc Text DeviceProfile)
    → has bytes_eq k d ≡ false
    → length (erase bytes_eq k d) ≡ length d
unfolding has erase
length-erase_absent k [] h = refl
length-erase_absent k ((j, q) ∷ d) h = ground (arith, length-erase_absent k d)

length-erase :
    (k : Text) (d : Assoc Text DeviceProfile)
    → Unique bytes_eq d
    → has bytes_eq k d ≡ true
    → suc (length (erase bytes_eq k d)) ≡ length d
unfolding has erase
length-erase k [] u h = absurd (cc)
length-erase k ((j, q) ∷ d) u h = elim (Bool-cases (bytes_eq j k)) [
  | inl same ↦
      let e : has bytes_eq k d ≡ false = rw (sym (bytes_eq→eq j k same)) u.0 in
      rw same (ap suc (length-erase_absent k d e))
  | inr other ↦ rw other (ap suc (length-erase k d u.1 (rw other at h)))
]

save_profiles-profiles : (m : ProfileManager) → (save_profiles m).profiles ≡ m.profiles
unfolding save_profiles
save_profiles-profiles m = by_writable m.writable
  where
    by_writable :
        (b : Bool)
        → (if b then record m { profiles_file = some m.profiles } else m).profiles ≡ m.profiles
    by_writable true = refl
    by_writable false = refl

-- When a profile `b` has been created and then an older one is deleted, `b` is still there, and the
-- next profile gets the address that `b` has, whenever each of them is created.
pub address_given_twice :
    (m : ProfileManager) (files : JsonFiles) (path old name name' kind kind' : Text)
    (kp kp' : KeyPair) (seconds seconds' now now' : ℕ)
    → Unique bytes_eq m.profiles
    → has bytes_eq old m.profiles ≡ true
    → let b = new_profile name kind kp seconds now m in
      has bytes_eq b.id m.profiles ≡ false
      → let created = create_profile name kind path kp seconds now m files in
        let kept = (delete_profile old created.0).0 in
        let c = (create_profile name' kind' path kp' seconds' now' kept created.1).2 in
        (lookup bytes_eq b.id kept.profiles ≡ some b) × (c.allocated_vip ≡ b.allocated_vip)
unfolding create_profile delete_profile
address_given_twice m files path old name name' kind kind' kp kp' seconds seconds' now now' unique
      there fresh =
    let b = new_profile name kind kp seconds now m in
    let d = insert bytes_eq b.id b m.profiles in
    let apart : bytes_eq old b.id ≡ false = elim (Bool-cases (bytes_eq old b.id)) [
      | inl same ↦ absurd (old_is_new same)
      | inr other ↦ other
    ] in
    let there' : has bytes_eq old d ≡ true =
      has-insert bytes_eq text_eq_iff b.id old b m.profiles
      ∙ either_true (bytes_eq b.id old) _ there in
    let shorter : suc (length (erase bytes_eq old d)) ≡ length d =
      length-erase old d (insert-Unique bytes_eq text_eq_iff b.id b m.profiles unique) there' in
    let longer : length d ≡ length m.profiles + 1 = length-insert_new b.id b m.profiles fresh in
    let same_count : length (erase bytes_eq old d) ≡ length m.profiles = omega arith in
    rw (save_profiles-profiles (record m { profiles = d }), there', save_profiles-profiles)
      (
        lookup-erase bytes_eq text_eq_iff old b.id d
            ∙ rw apart (
                lookup-insert bytes_eq text_eq_iff b.id b.id b m.profiles
                ∙ rw (bytes_eq_refl b.id)),
        unfold new_profile in ap (λ n. vip_of (n + 2)) same_count,
      )
  where
    either_true : (x y : Bool) → y ≡ true → (if x then true else y) ≡ true
    either_true true y h = refl
    either_true false y h = h

    old_is_new : bytes_eq old (new_profile name kind kp seconds now m).id ≡ true → ⊥
    old_is_new same =
        let e : has bytes_eq old m.profiles ≡ false =
          rw (bytes_eq→eq old (new_profile name kind kp seconds now m).id same) fresh in
        cc
