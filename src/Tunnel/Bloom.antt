-- ===== src/Tunnel/Bloom.antt =====
-- `BloomFilter` of shinvpn/tunnel/adblock.py. The MD5 and the SHA-1 digest of a text, read as
-- numbers, are a parameter.
pub mod Members
use shin_vpn.Prelude.{
  ℕ, zero, suc, ◌+◌, ◌-◌, ◌*◌, ◌/◌, ◌%◌, ◌^◌, ◌<◌, bit_and, bit_or, Bytes, List, [], ◌∷◌, Bool,
  true, false, not, ◌==◌, if◌then◌else◌, Option, none, some, Result, ok, err, index_error, ◌>>=◌,
  get_elem?, replicate, length, map,
}
use shin_vpn.Prelude.Utf8.{Text}

pub record BloomFilter : Type 0 where
  pub size : ℕ
  pub num_hashes : ℕ
  pub bit_array : Bytes

unfoldable pub new_bloom : ℕ → ℕ → BloomFilter
new_bloom size_bits num_hashes = record {
  size = size_bits;
  num_hashes = num_hashes;
  bit_array = replicate (size_bits / 8) 0;
}

-- self.bit_array[i] |= mask
unfoldable pub or_byte : ℕ → ℕ → Bytes → Result Bytes
or_byte i mask [] = err index_error
or_byte zero mask (b ∷ bs) = ok (bit_or b mask ∷ bs)
or_byte (suc i) mask (b ∷ bs) = or_byte i mask bs >>= λ rest. ok (b ∷ rest)

-- The two loops over bit indices.

unfoldable pub add_bits : List ℕ → Bytes → Result Bytes
add_bits [] bits = ok bits
add_bits (i ∷ is) bits = or_byte (i / 8) (2 ^ (i % 8)) bits >>= add_bits is

unfoldable pub has_bit : ℕ → Bytes → Result Bool
has_bit i bits = elim (get_elem? bits (i / 8)) [
  | none ↦ err index_error
  | some b ↦ ok (not (bit_and b (2 ^ (i % 8)) == 0))
]

unfoldable pub has_bits : List ℕ → Bytes → Result Bool
has_bits [] bits = ok true
has_bits (i ∷ is) bits =
    let rest = has_bits is bits in has_bit i bits >>= λ set. if set then rest else ok false

-- [(h1 + i * h2) % size for i in range(num_hashes)], from the index `i` on.
unfoldable pub hashes_from : ℕ → ℕ → ℕ → ℕ → ℕ → List ℕ
hashes_from size h1 h2 i zero = []
hashes_from size h1 h2 i (suc left) = ((h1 + i * h2) % size) ∷ hashes_from size h1 h2 (i + 1) left

module _ (digests : Text → ℕ × ℕ) where
  unfoldable pub get_hashes : BloomFilter → Text → List ℕ
  get_hashes b item = hashes_from b.size (digests item).0 (digests item).1 0 b.num_hashes

  unfoldable pub add : BloomFilter → Text → Result BloomFilter
  add b item =
      add_bits (get_hashes b item) b.bit_array >>= λ bits. ok (record b { bit_array = bits })

  unfoldable pub contains : BloomFilter → Text → Result Bool
  contains b item = has_bits (get_hashes b item) b.bit_array

unfoldable pub clear : BloomFilter → BloomFilter
clear b = record b { bit_array = replicate (b.size / 8) 0 }
