-- ===== src/Tunnel/Bloom/Members.antt =====
-- What was added is contained.
use shin_vpn.Prelude.{
  ℕ, zero, suc, ◌/◌, ◌%◌, ◌^◌, bit_or, Bytes, List, [], ◌∷◌, Bool, true, ◌==◌, if◌then◌else◌,
  Option, none, some, ok, get_elem?, ◌≡◌, refl, ap, ◌∙◌, arith, >>=-eq-ok, Option-cases, Bool-cases,
  inl, inr,
}
use shin_vpn.Prelude.Bits.{test_bit, bit_and-pow, test_bit-bit_or, test_bit-pow}
use shin_vpn.Prelude.Utf8.{Text}
use shin_vpn.Tunnel.Bloom.{
  BloomFilter, or_byte, add_bits, has_bit, has_bits, get_hashes, add, contains,
}

abbrev map_some : ℕ → Option ℕ → Option ℕ
map_some mask none = none
map_some mask (some b) = some (bit_or b mask)

-- One byte after another.
or_byte-get :
    (i j mask : ℕ) (bits out : Bytes)
    → or_byte i mask bits ≡ ok out
    → get_elem? out j ≡ (if i == j then map_some mask (get_elem? bits j) else get_elem? bits j)
unfolding or_byte
or_byte-get i j mask [] out e = absurd (cc)
or_byte-get zero zero mask (b ∷ bs) out e = ground arith
or_byte-get zero (suc j) mask (b ∷ bs) out e = ground arith
or_byte-get (suc i) zero mask (b ∷ bs) out e =
    let (rest, made, is) = >>=-eq-ok (or_byte i mask bs) _ e in ground arith
or_byte-get (suc i) (suc j) mask (b ∷ bs) out e =
    let (rest, made, is) = >>=-eq-ok (or_byte i mask bs) _ e in
    ground (arith, or_byte-get i j mask bs rest made)

or_byte-some :
    (i mask : ℕ) (bits out : Bytes)
    → or_byte i mask bits ≡ ok out
    → (b : ℕ) × (get_elem? bits i ≡ some b)
unfolding or_byte
or_byte-some i mask [] out e = absurd (cc)
or_byte-some zero mask (b ∷ bs) out e = (b, refl)
or_byte-some (suc i) mask (b ∷ bs) out e =
    let (rest, made, is) = >>=-eq-ok (or_byte i mask bs) _ e in or_byte-some i mask bs rest made

has_bit-ok :
    (k b : ℕ) (bits : Bytes)
    → get_elem? bits (k / 8) ≡ some b
    → has_bit k bits ≡ ok (test_bit b (k % 8))
unfolding has_bit
has_bit-ok k b bits e = rw (e, has_bit) (ground (arith, bit_and-pow (k % 8) b))

has_bit_inv :
    (k : ℕ) (bits : Bytes)
    → has_bit k bits ≡ ok true
    → (b : ℕ) × (get_elem? bits (k / 8) ≡ some b) × (test_bit b (k % 8) ≡ true)
has_bit_inv k bits h = elim (Option-cases (get_elem? bits (k / 8))) [
  | inl missing ↦ absurd (unfold has_bit in ground (arith, missing))
  | inr (b, found) ↦ (b, found, ground (arith, has_bit-ok k b bits found))
]

-- The bit that is set is set afterwards, and so are those that were.

has_bit_set :
    (i : ℕ) (bits out : Bytes)
    → or_byte (i / 8) (2 ^ (i % 8)) bits ≡ ok out
    → has_bit i out ≡ ok true
has_bit_set i bits out e =
    let (b, found) = or_byte-some (i / 8) (2 ^ (i % 8)) bits out e in
    let now : get_elem? out (i / 8) ≡ some (bit_or b (2 ^ (i % 8))) =
      ground (arith, or_byte-get (i / 8) (i / 8) (2 ^ (i % 8)) bits out e) in
    has_bit-ok i (bit_or b (2 ^ (i % 8))) out now
    ∙ ap (λ (x : Bool). ok x)
        (ground (arith, test_bit-bit_or (i % 8) b (2 ^ (i % 8)), test_bit-pow (i % 8) (i % 8)))

has_bit_kept :
    (i k : ℕ) (bits out : Bytes)
    → or_byte (i / 8) (2 ^ (i % 8)) bits ≡ ok out
    → has_bit k bits ≡ ok true
    → has_bit k out ≡ ok true
has_bit_kept i k bits out e h =
    let (b, found, set) = has_bit_inv k bits h in
    let m = 2 ^ (i % 8) in
    let now = or_byte-get (i / 8) (k / 8) m bits out e in
    elim (Bool-cases (i / 8 == k / 8)) [
      | inl same ↦
          has_bit-ok k (bit_or b m) out (ground (arith, now))
          ∙ ap (λ (x : Bool). ok x) (ground (arith, test_bit-bit_or (k % 8) b m))
      | inr other ↦ has_bit-ok k b out (ground (arith, now)) ∙ ap (λ (x : Bool). ok x) set
    ]

has_bit-add_bits :
    (k : ℕ) (is : List ℕ) (bits out : Bytes)
    → add_bits is bits ≡ ok out
    → has_bit k bits ≡ ok true
    → has_bit k out ≡ ok true
unfolding add_bits
has_bit-add_bits k [] bits out e h = ground arith
has_bit-add_bits k (i ∷ is) bits out e h =
    let (mid, first, rest) = >>=-eq-ok (or_byte (i / 8) (2 ^ (i % 8)) bits) (add_bits is) e in
    has_bit-add_bits k is mid out rest (has_bit_kept i k bits mid first h)

has_bits-add_bits :
    (is : List ℕ) (bits out : Bytes) → add_bits is bits ≡ ok out → has_bits is out ≡ ok true
unfolding add_bits has_bits
has_bits-add_bits [] bits out e = refl
has_bits-add_bits (i ∷ is) bits out e =
    let (mid, first, rest) = >>=-eq-ok (or_byte (i / 8) (2 ^ (i % 8)) bits) (add_bits is) e in
    rw (has_bit-add_bits i is mid out rest (has_bit_set i bits mid first))
      (has_bits-add_bits is mid out rest)

has_bits_kept :
    (ks is : List ℕ) (bits out : Bytes)
    → add_bits is bits ≡ ok out
    → has_bits ks bits ≡ ok true
    → has_bits ks out ≡ ok true
unfolding has_bits
has_bits_kept [] is bits out e h = refl
has_bits_kept (k ∷ ks) is bits out e h =
    let (set, found, rest) = >>=-eq-ok (has_bit k bits) _ h in
    elim (Bool-cases set) [
      | inl is_set ↦
          rw (has_bit-add_bits k is bits out e (found ∙ ap (λ (x : Bool). ok x) is_set))
            (has_bits_kept ks is bits out e (ground (arith, rest)))
      | inr clear_ ↦ absurd (ground (arith, rest))
    ]

module _ (digests : Text → ℕ × ℕ) where
  add_inv :
      (b c : BloomFilter) (item : Text)
      → add digests b item ≡ ok c
      → (add_bits (get_hashes digests b item) b.bit_array ≡ ok c.bit_array)
        × (c.size ≡ b.size)
        × (c.num_hashes ≡ b.num_hashes)
  unfolding add
  add_inv b c item e =
      let (bits, added, is) = >>=-eq-ok (add_bits (get_hashes digests b item) b.bit_array) _ e in
      (ground (arith, added, is), ground (arith, is), ground (arith, is))

  same_hashes :
      (b c : BloomFilter) (item : Text)
      → c.size ≡ b.size
      → c.num_hashes ≡ b.num_hashes
      → get_hashes digests c item ≡ get_hashes digests b item
  unfolding get_hashes
  same_hashes b c item s n = rw (s, n)

  -- An item that was added is contained.
  pub contains-add :
      (b c : BloomFilter) (item : Text)
      → add digests b item ≡ ok c
      → contains digests c item ≡ ok true
  unfolding contains
  contains-add b c item e =
      let (added, s, n) = add_inv b c item e in
      ap (λ (is : List ℕ). has_bits is c.bit_array) (same_hashes b c item s n)
      ∙ has_bits-add_bits (get_hashes digests b item) b.bit_array c.bit_array added

  -- An item that is contained stays so when another is added.
  pub contains-kept :
      (b c : BloomFilter) (item other : Text)
      → add digests b other ≡ ok c
      → contains digests b item ≡ ok true
      → contains digests c item ≡ ok true
  unfolding contains
  contains-kept b c item other e h =
      let (added, s, n) = add_inv b c other e in
      ap (λ (is : List ℕ). has_bits is c.bit_array) (same_hashes b c item s n)
      ∙ has_bits_kept (get_hashes digests b item) (get_hashes digests b other) b.bit_array
          c.bit_array added h
