-- ===== src/Crypto/Handshake/Slices.antt =====
-- The fields of a message that is put together from fields of known lengths.
use shin_vpn.Prelude.{
  ℕ, ◌+◌, ◌-◌, List, ◌++◌, length, take, slice, ◌≡◌, ap, ◌∙◌, sym, arith, length-append,
  take-append, drop-append, take_of_length-le,
}
use mathlib.Core.List.{append_assoc}

module _ {ℓ} {A : Type ℓ} where
  pub slice-append :
      (i j : ℕ) (a b c : List A) → length a ≡ i → length b ≡ j - i → slice i j (a ++ (b ++ c)) ≡ b
  slice-append i j a b c p q =
      ap (take (j - i)) (drop-append i a (b ++ c) p) ∙ take-append (j - i) b c q

  -- Four fields and a tag: each is found between its bounds.
  pub record Fields (w x y z t message : List A) (a b c d : ℕ) : Type ℓ where
    pub before_tag : take d message ≡ w ++ (x ++ (y ++ z))
    pub first : take a message ≡ w
    pub second : slice a b message ≡ x
    pub third : slice b c message ≡ y
    pub fourth : slice c d message ≡ z
    pub tag : slice d (d + length t) message ≡ t
    pub total : length message ≡ d + length t

  pub Fields-append :
      (w x y z t : List A) (a b c d : ℕ)
      → length w ≡ a
      → a + length x ≡ b
      → b + length y ≡ c
      → c + length z ≡ d
      → Fields w x y z t ((w ++ (x ++ (y ++ z))) ++ t) a b c d
  Fields-append w x y z t a b c d p q r u =
      let whole : (w ++ (x ++ (y ++ z))) ++ t ≡ w ++ (x ++ (y ++ (z ++ t))) =
        append_assoc w (x ++ (y ++ z)) t
        ∙ ap (◌++◌ w) (append_assoc x (y ++ z) t ∙ ap (◌++◌ x) (append_assoc y z t)) in
      let body_length : length (w ++ (x ++ (y ++ z))) ≡ d =
        omega
          (arith, length-append w (x ++ (y ++ z)), length-append x (y ++ z), length-append y z) in
      let wx : length (w ++ x) ≡ b = omega (arith, length-append w x) in
      let wxy : length (w ++ x ++ y) ≡ c = omega (arith, length-append (w ++ x) y, wx) in
      record {
        before_tag = take-append d (w ++ (x ++ (y ++ z))) t body_length;
        first = ap (take a) whole ∙ take-append a w (x ++ (y ++ (z ++ t))) p;
        second = ap (slice a b) whole ∙ slice-append a b w x (y ++ (z ++ t)) p (omega arith);
        third =
            ap (slice b c) (whole ∙ sym (append_assoc w x (y ++ (z ++ t))))
            ∙ slice-append b c (w ++ x) y (z ++ t) wx (omega arith);
        fourth =
            ap (slice c d) (
              whole
              ∙ sym (append_assoc w x (y ++ (z ++ t)))
              ∙ sym (append_assoc (w ++ x) y (z ++ t)))
            ∙ slice-append c d (w ++ x ++ y) z t wxy (omega arith);
        tag =
            ap (take (d + length t - d)) (drop-append d (w ++ (x ++ (y ++ z))) t body_length)
            ∙ take_of_length-le (d + length t - d) t (omega arith);
        total = omega (arith, length-append (w ++ (x ++ (y ++ z))) t, body_length);
      }
