-- ===== src/Prelude/Bits.antt =====
-- One bit of a number, and what `&`, `|`, `<<` and a low mask do to it.
use Prim.Native.Nat.{
  ℕ, zero, suc, ◌+◌, ◌-◌, ◌*◌, ◌/◌, ◌%◌, ◌^◌, ◌≤◌, ◌<◌, min, max, digits, bitwise, bit_and, bit_or,
  bit_and-bitwise, bit_or-bitwise,
}
use mathlib.Core.Path.{◌≡◌, refl, ap}
use mathlib.Core.Bool.{Bool, false, not, ◌&&◌, ◌||◌}
use native.Mathlib.Nat.{le_refl, pow-suc, one-le-pow}
use native.Mathlib.Omega.{arith}
use shin_vpn.Prelude.Tests.{ltb, ◌==◌, if◌then◌else◌}

-- `digits` stops where the first number is 0, so fuel beyond that number does not count.
module _ (rest : ℕ → ℕ) (op : ℕ → ℕ → ℕ) where
  same_digits :
      (x y fuel spare : ℕ)
      → x ≤ spare
      → x ≤ fuel
      → digits rest op fuel x y ≡ digits rest op spare x y
  same_digits zero y zero zero l k = refl
  same_digits zero y zero (suc s) l k = refl
  same_digits zero y (suc t) zero l k = refl
  same_digits zero y (suc t) (suc s) l k = refl
  same_digits (suc x) y t zero l k = absurd (omega arith)
  same_digits (suc x) y zero (suc s) l k = absurd (omega arith)
  same_digits (suc x) y (suc t) (suc s) l k =
      ap (λ (r : ℕ). r * 2 + op (suc x % 2) (y % 2))
        (same_digits (suc x / 2) (y / 2) t s (omega arith) (omega arith))

  lowest :
      (x y : ℕ)
      → bitwise rest op (suc x) y ≡ bitwise rest op (suc x / 2) (y / 2) * 2 + op (suc x % 2) (y % 2)
  lowest x y =
      ap (λ (r : ℕ). r * 2 + op (suc x % 2) (y % 2))
        (same_digits (suc x / 2) (y / 2) x (suc x / 2) (le_refl _) (omega arith))

-- The lowest bit of a disjunction and of a conjunction.

pub bit_or_step : (x y : ℕ) → bit_or x y ≡ bit_or (x / 2) (y / 2) * 2 + max (x % 2) (y % 2)
bit_or_step zero y = simp bit_or-bitwise (omega arith)
bit_or_step (suc x) y = simp bit_or-bitwise (lowest (λ t. t) max x y)

pub bit_and_step : (x y : ℕ) → bit_and x y ≡ bit_and (x / 2) (y / 2) * 2 + min (x % 2) (y % 2)
bit_and_step zero y = simp bit_and-bitwise (omega arith)
bit_and_step (suc x) y = simp bit_and-bitwise (lowest (λ t. 0) min x y)

bit_and-zero_below : (n a : ℕ) → a ≤ n → bit_and a 0 ≡ 0
bit_and-zero_below n zero h = refl
bit_and-zero_below zero (suc a) h = absurd (omega arith)
bit_and-zero_below (suc n) (suc a) h =
    omega (arith, bit_and_step (suc a) 0, bit_and-zero_below n (suc a / 2) (omega arith))

pub bit_and-zero : (a : ℕ) → bit_and a 0 ≡ 0
bit_and-zero a = bit_and-zero_below a a (le_refl a)

-- The bit of `x` at place `k`.
unfoldable pub test_bit : ℕ → ℕ → Bool
test_bit x zero = x % 2 == 1
test_bit x (suc k) = test_bit (x / 2) k

pub test_bit-bit_or : (k x y : ℕ) → test_bit (bit_or x y) k ≡ (test_bit x k || test_bit y k)
unfolding test_bit
test_bit-bit_or zero x y = ground (arith, bit_or_step x y)
test_bit-bit_or (suc k) x y =
    let e : bit_or x y / 2 ≡ bit_or (x / 2) (y / 2) = omega (arith, bit_or_step x y) in
    rw e (test_bit-bit_or k (x / 2) (y / 2))

pub test_bit-zero : (k : ℕ) → test_bit 0 k ≡ false
unfolding test_bit
test_bit-zero zero = refl
test_bit-zero (suc k) = test_bit-zero k

half-pow : (k : ℕ) → 2 ^ suc k / 2 ≡ 2 ^ k
half-pow k = omega (arith, pow-suc 2 k)

pub test_bit-pow : (k j : ℕ) → test_bit (2 ^ k) j ≡ (k == j)
unfolding test_bit
test_bit-pow zero zero = refl
test_bit-pow zero (suc j) = ground (arith, test_bit-zero j)
test_bit-pow (suc k) zero = ground (arith, pow-suc 2 k)
test_bit-pow (suc k) (suc j) = rw (half-pow k) (ground (arith, test_bit-pow k j))

-- x << d
pub test_bit-shift :
    (d x j : ℕ) → test_bit (x * 2 ^ d) j ≡ (if ltb j d then false else test_bit x (j - d))
unfolding test_bit
test_bit-shift zero x zero = ground arith
test_bit-shift zero x (suc j) = ground arith
test_bit-shift (suc d) x zero = ground (arith, pow-suc 2 d, ap (λ (t : ℕ). x * t) (pow-suc 2 d))
test_bit-shift (suc d) x (suc j) =
    let e : x * 2 ^ suc d / 2 ≡ x * 2 ^ d = omega (arith, ap (λ (t : ℕ). x * t) (pow-suc 2 d)) in
    rw e (ground (arith, test_bit-shift d x j))

pub test_bit-bit_and : (k x y : ℕ) → test_bit (bit_and x y) k ≡ (test_bit x k && test_bit y k)
unfolding test_bit
test_bit-bit_and zero x y = ground (arith, bit_and_step x y)
test_bit-bit_and (suc k) x y =
    let e : bit_and x y / 2 ≡ bit_and (x / 2) (y / 2) = omega (arith, bit_and_step x y) in
    rw e (test_bit-bit_and k (x / 2) (y / 2))

-- The mask of `w` ones.
pub test_bit-mask : (w j : ℕ) → test_bit (2 ^ w - 1) j ≡ ltb j w
unfolding test_bit
test_bit-mask zero zero = refl
test_bit-mask zero (suc j) = ground (arith, test_bit-zero j)
test_bit-mask (suc w) zero = ground (arith, pow-suc 2 w, one-le-pow w 2)
test_bit-mask (suc w) (suc j) =
    let e : (2 ^ suc w - 1) / 2 ≡ 2 ^ w - 1 = omega (arith, pow-suc 2 w, one-le-pow w 2) in
    rw e (ground (arith, test_bit-mask w j))

-- x & (1 << k) is zero exactly when the bit is clear.
pub bit_and-pow : (k x : ℕ) → (bit_and x (2 ^ k) == 0) ≡ not (test_bit x k)
unfolding test_bit
bit_and-pow zero x = ground (arith, bit_and_step x 1, bit_and-zero (x / 2))
bit_and-pow (suc k) x =
    ground (arith, bit_and_step x (2 ^ suc k), half-pow k, pow-suc 2 k, bit_and-pow k (x / 2))

-- Above the bits of `x` there is nothing.
pub test_bit_above : (w x j : ℕ) → x < 2 ^ w → w ≤ j → test_bit x j ≡ false
unfolding test_bit
test_bit_above zero x j h g = let e : x ≡ 0 = omega arith in rw e (test_bit-zero j)
test_bit_above (suc w) x zero h g = absurd (omega arith)
test_bit_above (suc w) x (suc j) h g =
    test_bit_above w (x / 2) j (omega (arith, pow-suc 2 w)) (omega arith)

zero_of_bits : (n x : ℕ) → x ≤ n → ((j : ℕ) → test_bit x j ≡ false) → x ≡ 0
unfolding test_bit
zero_of_bits n zero h g = refl
zero_of_bits zero (suc x) h g = absurd (omega arith)
zero_of_bits (suc n) (suc x) h g =
    ground (arith, g 0, zero_of_bits n (suc x / 2) (omega arith) (λ j. g (suc j)))

pub lt_of_bits : (w x : ℕ) → ((j : ℕ) → w ≤ j → test_bit x j ≡ false) → x < 2 ^ w
unfolding test_bit
lt_of_bits zero x g = omega (arith, zero_of_bits x x (omega arith) (λ j. g j (omega arith)))
lt_of_bits (suc w) x g =
    omega (arith, pow-suc 2 w, lt_of_bits w (x / 2) (λ j h. g (suc j) (omega arith)))
