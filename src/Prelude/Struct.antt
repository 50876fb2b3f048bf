-- ===== src/Prelude/Struct.antt =====
-- The `struct` module: unsigned fields of n bytes, in network order (`!`) and little-endian (`<`).
use Prim.Native.Nat.{ℕ, zero, suc, ◌+◌, ◌*◌, ◌/◌, ◌%◌, ◌^◌, ◌<◌}
use mathlib.Core.Path.{◌≡◌, refl, sym, ◌∙◌, ap}
use mathlib.Core.List.{[], ◌∷◌, reverse, reverse-reverse, reverse-cons}
use native.Mathlib.Nat.{pow-suc}
use native.Mathlib.Omega.{arith}
use shin_vpn.Prelude.Tests.{ltb, ◌==◌, if◌then◌else◌, lt→ltb}
use shin_vpn.Prelude.Lists.{Bytes, All, All-append, length}
use shin_vpn.Prelude.Sizes.{length-reverse}
use shin_vpn.Prelude.Errors.{Result, ok, err, struct_error}

abbrev pub IsBytes : Bytes → Type 0
IsBytes = All (λ b. b < 256)

-- `n` bytes of `v`, the lowest first.
unfoldable pub le : ℕ → ℕ → Bytes
le zero v = []
le (suc n) v = (v % 256) ∷ le n (v / 256)

unfoldable pub value_le : Bytes → ℕ
value_le [] = 0
value_le (b ∷ bs) = b + 256 * value_le bs

unfoldable pub be : ℕ → ℕ → Bytes
unfolding le
be n v = reverse (le n v)

unfoldable pub value_be : Bytes → ℕ
unfolding value_le
value_be bs = value_le (reverse bs)

-- struct.pack: an integer that does not fit raises struct.error.
unfoldable pub pack_le : ℕ → ℕ → Result Bytes
unfolding le
pack_le n v = if ltb v (256 ^ n) then ok (le n v) else err struct_error

unfoldable pub pack_be : ℕ → ℕ → Result Bytes
unfolding be
pack_be n v = if ltb v (256 ^ n) then ok (be n v) else err struct_error

-- struct.unpack: a buffer of another length raises struct.error.
unfoldable pub unpack_le : ℕ → Bytes → Result ℕ
unfolding value_le
unpack_le n bs = if length bs == n then ok (value_le bs) else err struct_error

unfoldable pub unpack_be : ℕ → Bytes → Result ℕ
unfolding value_be
unpack_be n bs = if length bs == n then ok (value_be bs) else err struct_error

pub length-le : (n v : ℕ) → length (le n v) ≡ n
unfolding le
length-le zero v = refl
length-le (suc n) v = ap suc (length-le n (v / 256))

pub length-be : (n v : ℕ) → length (be n v) ≡ n
unfolding be
length-be n v = length-reverse (le n v) ∙ length-le n v

pub value_le-le : (n v : ℕ) → v < 256 ^ n → value_le (le n v) ≡ v
unfolding le value_le
value_le-le zero v h = omega arith
value_le-le (suc n) v h =
    let fits : v / 256 < 256 ^ n = omega (arith, pow-suc 256 n) in
    omega (arith, value_le-le n (v / 256) fits)

pub value_be-be : (n v : ℕ) → v < 256 ^ n → value_be (be n v) ≡ v
unfolding be value_be
value_be-be n v h = rw reverse-reverse (value_le-le n v h)

pub le-value_le : (bs : Bytes) → IsBytes bs → le (length bs) (value_le bs) ≡ bs
unfolding le value_le
le-value_le [] h = refl
le-value_le (b ∷ bs) h =
    let low : (b + 256 * value_le bs) % 256 ≡ b = omega (arith, h.0) in
    let high : (b + 256 * value_le bs) / 256 ≡ value_le bs = omega (arith, h.0) in
    rw (low, high) (ap (◌∷◌ b) (le-value_le bs h.1))

pub IsBytes-le : (n v : ℕ) → IsBytes (le n v)
unfolding le
IsBytes-le zero v = tt
IsBytes-le (suc n) v = (omega arith, IsBytes-le n (v / 256))

pub IsBytes-reverse : (bs : Bytes) → IsBytes bs → IsBytes (reverse bs)
IsBytes-reverse [] h = tt
IsBytes-reverse (b ∷ bs) h =
    rw reverse-cons
      (All-append (λ (x : ℕ). x < 256) (reverse bs) (b ∷ []) (IsBytes-reverse bs h.1) (h.0, tt))

pub IsBytes-be : (n v : ℕ) → IsBytes (be n v)
unfolding be
IsBytes-be n v = IsBytes-reverse (le n v) (IsBytes-le n v)

pub be-value_be : (n : ℕ) (bs : Bytes) → IsBytes bs → length bs ≡ n → be n (value_be bs) ≡ bs
unfolding be value_be
be-value_be n bs h e =
    let e' : n ≡ length (reverse bs) = sym e ∙ sym (length-reverse bs) in
    rw (e', le-value_le (reverse bs) (IsBytes-reverse bs h)) (reverse-reverse bs)

pub value_le-lt : (bs : Bytes) → IsBytes bs → value_le bs < 256 ^ length bs
unfolding value_le
value_le-lt [] h = omega arith
value_le-lt (b ∷ bs) h = omega (arith, h.0, value_le-lt bs h.1, pow-suc 256 (length bs))

pub value_be-lt : (n : ℕ) (bs : Bytes) → IsBytes bs → length bs ≡ n → value_be bs < 256 ^ n
unfolding value_be
value_be-lt n bs h e =
    let e' : n ≡ length (reverse bs) = sym e ∙ sym (length-reverse bs) in
    rw e' (value_le-lt (reverse bs) (IsBytes-reverse bs h))

pub pack_be-ok : (n v : ℕ) → v < 256 ^ n → pack_be n v ≡ ok (be n v)
unfolding pack_be
pack_be-ok n v h = rw (lt→ltb v (256 ^ n) h)

pub pack_be_inv : (n v : ℕ) {bs : Bytes} → pack_be n v ≡ ok bs → (v < 256 ^ n) × (bs ≡ be n v)
unfolding pack_be
pack_be_inv n v h = ground arith

pub unpack_be-ok : (n : ℕ) (bs : Bytes) → length bs ≡ n → unpack_be n bs ≡ ok (value_be bs)
unfolding unpack_be
unpack_be-ok n bs h = ground arith

-- What a pack wrote, the same unpack reads.
pub unpack_be-be : (n v : ℕ) → v < 256 ^ n → unpack_be n (be n v) ≡ ok v
unpack_be-be n v h = unpack_be-ok n (be n v) (length-be n v) ∙ ap ok (value_be-be n v h)

pub pack_le-ok : (n v : ℕ) → v < 256 ^ n → pack_le n v ≡ ok (le n v)
unfolding pack_le
pack_le-ok n v h = rw (lt→ltb v (256 ^ n) h)

pub unpack_le-ok : (n : ℕ) (bs : Bytes) → length bs ≡ n → unpack_le n bs ≡ ok (value_le bs)
unfolding unpack_le
unpack_le-ok n bs h = ground arith

pub be-one : (v : ℕ) → v < 256 → be 1 v ≡ v ∷ []
unfolding be le
be-one v h = ap (λ (x : ℕ). x ∷ []) (omega arith)
