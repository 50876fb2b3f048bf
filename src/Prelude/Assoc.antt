-- ===== src/Prelude/Assoc.antt =====
-- A `dict` as an association list in insertion order, over keys with an equality test.
use mathlib.Core.Path.{◌≡◌, refl}
use mathlib.Core.Logic.{◌↔◌}
use mathlib.Core.Bool.{Bool, true, false}
use mathlib.Core.Option.{Option, none, some}
use mathlib.Core.List.{List, [], ◌∷◌}
use native.Mathlib.Omega.{arith}
use mathlib.Core.Logic.{inl, inr}
use shin_vpn.Prelude.Tests.{if◌then◌else◌, Bool-cases}

-- A `dict` in Python: `set` keeps the place of a key that is there, and appends a new one.
abbrev pub Assoc {ℓ κ} : Type ℓ → Type κ → Type (ℓ ⊔ κ)
Assoc K V = List (K × V)

module _ {ℓ κ} {K : Type ℓ} {V : Type κ} (eq : K → K → Bool) where
  -- d.get(k)
  unfoldable pub lookup : K → Assoc K V → Option V
  lookup k [] = none
  lookup k ((j, v) ∷ d) = if eq j k then some v else lookup k d

  -- k in d
  unfoldable pub has : K → Assoc K V → Bool
  has k [] = false
  has k ((j, v) ∷ d) = if eq j k then true else has k d

  -- d[k] = v
  unfoldable pub insert : K → V → Assoc K V → Assoc K V
  insert k v [] = (k, v) ∷ []
  insert k v ((j, w) ∷ d) = if eq j k then (j, v) ∷ d else (j, w) ∷ insert k v d

  -- d.pop(k, None), without its result
  unfoldable pub erase : K → Assoc K V → Assoc K V
  erase k [] = []
  erase k ((j, w) ∷ d) = let rest = erase k d in if eq j k then rest else (j, w) ∷ rest

  module _ (eq_iff : (a b : K) → (eq a b ≡ true) ↔ (a ≡ b)) where
    pub lookup-insert :
        (k j : K) (v : V) (d : Assoc K V)
        → lookup j (insert k v d) ≡ (if eq k j then some v else lookup j d)
    unfolding lookup insert
    lookup-insert k j v [] = refl
    lookup-insert k j v ((i, w) ∷ d) =
        ground (arith, eq_iff k j, eq_iff i k, eq_iff i j, lookup-insert k j v d)

    pub lookup-erase :
        (k j : K) (d : Assoc K V) → lookup j (erase k d) ≡ (if eq k j then none else lookup j d)
    unfolding lookup erase
    lookup-erase k j [] = ground arith
    lookup-erase k j ((i, w) ∷ d) =
        ground (arith, lookup-erase k j d, eq_iff i k, eq_iff i j, eq_iff k j)

-- No key twice.
abbrev pub Unique {ℓ κ} : {K : Type ℓ} {V : Type κ} → (K → K → Bool) → Assoc K V → Type 0
Unique eq [] = Unit
Unique eq ((k, v) ∷ d) = (has eq k d ≡ false) × Unique eq d

module _ {ℓ κ} {K : Type ℓ} {V : Type κ} (eq : K → K → Bool)
    (eq_iff : (a b : K) → (eq a b ≡ true) ↔ (a ≡ b)) where
  pub has-insert :
      (k j : K) (v : V) (d : Assoc K V)
      → has eq j (insert eq k v d) ≡ (if eq k j then true else has eq j d)
  unfolding has insert
  has-insert k j v [] = refl
  has-insert k j v ((i, w) ∷ d) =
      ground (arith, eq_iff k j, eq_iff i k, eq_iff i j, has-insert k j v d)

  pub has-erase :
      (k j : K) (d : Assoc K V) → has eq j (erase eq k d) ≡ (if eq k j then false else has eq j d)
  unfolding has erase
  has-erase k j [] = ground arith
  has-erase k j ((i, w) ∷ d) = ground (arith, has-erase k j d, eq_iff i k, eq_iff i j, eq_iff k j)

  pub insert-Unique : (k : K) (v : V) (d : Assoc K V) → Unique eq d → Unique eq (insert eq k v d)
  unfolding insert has
  insert-Unique k v [] u = (refl, tt)
  insert-Unique k v ((i, w) ∷ d) u = elim (Bool-cases (eq i k)) [
    | inl same ↦ rw same (u.0, u.1)
    | inr other ↦
        rw other
          (ground (arith, has-insert k i v d, eq_iff k i, eq_iff i k, u.0), insert-Unique k v d u.1)
  ]

  pub erase-Unique : (k : K) (d : Assoc K V) → Unique eq d → Unique eq (erase eq k d)
  unfolding erase
  erase-Unique k [] u = tt
  erase-Unique k ((i, w) ∷ d) u = elim (Bool-cases (eq i k)) [
    | inl same ↦ rw same (erase-Unique k d u.1)
    | inr other ↦ rw other (ground (arith, has-erase k i d, u.0), erase-Unique k d u.1)
  ]

  pub lookup_of_not-has : (k : K) (d : Assoc K V) → has eq k d ≡ false → lookup eq k d ≡ none
  unfolding has lookup
  lookup_of_not-has k [] h = refl
  lookup_of_not-has k ((i, w) ∷ d) h = ground (arith, lookup_of_not-has k d)

  pub lookup_of_has :
      (k : K) (d : Assoc K V) → has eq k d ≡ true → (v : V) × (lookup eq k d ≡ some v)
  unfolding has lookup
  lookup_of_has k [] h = absurd (cc)
  lookup_of_has k ((i, w) ∷ d) h = elim (Bool-cases (eq i k)) [
    | inl same ↦ (w, rw same)
    | inr other ↦ rw other (lookup_of_has k d (rw other at h))
  ]
