-- ===== src/Prelude/Exec.antt =====
-- Methods that change an object and may raise. What was written before a raise stays written.
use mathlib.Core.Path.{◌≡◌, refl}
use shin_vpn.Prelude.Errors.{Error, Result, ok, err}

abbrev pub Exec {ℓ} : Type ℓ → Type ℓ → Type ℓ
Exec S A = S → S × Result A

module _ {ℓ} {S : Type ℓ} where
  abbrev pub modify : (S → S) → Exec S (Unit {ℓ})
  modify f s = (f s, ok tt)

module _ {ℓ} {S A : Type ℓ} where
  abbrev pub pure : A → Exec S A
  pure a s = (s, ok a)

  abbrev pub raise : Error → Exec S A
  raise e s = (s, err e)

  -- A call that may raise and changes nothing.
  abbrev pub lift : Result A → Exec S A
  lift r s = (s, r)

  abbrev pub gets : (S → A) → Exec S A
  gets f s = (s, ok (f s))

module _ {ℓ} {S A B : Type ℓ} where
  abbrev pub continue : S × Result A → (A → Exec S B) → S × Result B
  continue (s, ok a) f = f a s
  continue (s, err e) f = (s, err e)

  infixl 5 ◌>>=◌ ◌>>◌
  abbrev pub ◌>>=◌ : Exec S A → (A → Exec S B) → Exec S B
  ◌>>=◌ m f s = continue (m s) f

  abbrev pub ◌>>◌ : Exec S A → Exec S B → Exec S B
  m >> k = m >>= λ _. k

-- try: m, except Exception: handler
module _ {ℓ} {S A : Type ℓ} where
  abbrev pub rescued : S × Result A → Exec S A → S × Result A
  rescued (s, ok a) handler = (s, ok a)
  rescued (s, err e) handler = handler s

  abbrev pub rescue : Exec S A → Exec S A → Exec S A
  rescue m handler s = rescued (m s) handler

-- What a method did, step by step: the state and value after the first call of a block that
-- returned.
pub exec_inv {ℓ} :
    {S A B : Type ℓ} (m : S × Result A) (f : A → Exec S B) (s : S) (b : B)
    → continue m f ≡ (s, ok b)
    → (a : A) × (m ≡ (m.0, ok a)) × (f a m.0 ≡ (s, ok b))
exec_inv (s', ok a) f s b h = (a, refl, h)
exec_inv (s', err e) f s b h = absurd (cc)
