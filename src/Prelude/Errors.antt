-- ===== src/Prelude/Errors.antt =====
-- Python's exceptions as values. `str` values are the lists of their code points.
use mathlib.Core.Path.{◌≡◌, refl}
use mathlib.Core.Bool.{Bool, true, false}

pub data Error : Type 0 where
  value_error struct_error index_error unicode_error runtime_error permission_error : Error
  invalid_tag type_error key_error incomplete_read : Error
  limit_overrun connection_reset file_not_found attribute_error : Error

-- What a call returns or raises.
pub data Result {ℓ} (R : Type ℓ) : Type ℓ where
  err : Error → Result R
  ok : R → Result R

-- if not b: raise e
abbrev pub guard : Bool → Error → Result (Unit {0})
guard false e = err e
guard true e = ok tt

infixl 5 ◌>>=◌ ◌>>◌
abbrev pub ◌>>=◌ {ℓ κ} : {R : Type ℓ} {S : Type κ} → Result R → (R → Result S) → Result S
err e >>= k = err e
ok v >>= k = k v

abbrev pub ◌>>◌ {ℓ} : {S : Type ℓ} → Result (Unit {0}) → Result S → Result S
first >> after = first >>= λ _. after

-- A block that returned: its first call did, and the rest did with that call's value.
pub >>=-eq-ok {ℓ κ} :
    {R : Type ℓ} {S : Type κ} (call : Result R) (rest : R → Result S) {s : S}
    → (call >>= rest) ≡ ok s
    → (v : R) × (call ≡ ok v) × (rest v ≡ ok s)
>>=-eq-ok (err e) rest returned = absurd (cc)
>>=-eq-ok (ok v) rest returned = (v, refl, returned)
