-- ===== src/Prelude/Results.antt =====
-- `std::result::Result` with its `?`, and the loops that stop at the first error.
use mathlib.Core.Path.{◌≡◌, refl, ap}
use mathlib.Core.Logic.{◌⊎◌, inl, inr}
use mathlib.Core.Bool.{Bool, true, false}
use mathlib.Core.Option.{Option, none, some}

pub data Result {ℓ} (E A : Type ℓ) : Type ℓ where
  ok : A → Result E A
  err : E → Result E A

module _ {ℓ} {E A B : Type ℓ} where
  infixl 5 ◌>>=◌
  abbrev pub ◌>>=◌ : Result E A → (A → Result E B) → Result E B
  ok a >>= f = f a
  err e >>= f = err e

  pub >>=-eq-ok :
      (first : Result E A) (next : A → Result E B) {final : B}
      → (first >>= next) ≡ ok final
      → (mid : A) × (first ≡ ok mid) × (next mid ≡ ok final)
  >>=-eq-ok (err error) next reached = cc
  >>=-eq-ok (ok mid) next reached = (mid, refl, reached)

-- What holds of every way to go on, holds.
pub through {ℓ κ} :
    {E A B : Type ℓ} {Q : Type κ} (m : Result E A) (f : A → Result E B) {b : B}
    → (m >>= f) ≡ ok b
    → ((a : A) → f a ≡ ok b → Q)
    → Q
through (ok a) f h q = q a h
through (err e) f h q = cc h

abbrev pub ◌>>◌ {ℓ} : {E B : Type ℓ} → Result E Unit → Result E B → Result E B
m >> k = m >>= λ _. k

infixl 5 ◌>>◌
module _ {ℓ} {E F A : Type ℓ} where
  abbrev pub map_err : (E → F) → Result E A → Result F A
  map_err f (ok a) = ok a
  map_err f (err e) = err (f e)

module _ {ℓ} {E A : Type ℓ} where
  -- `option.ok_or(e)`
  abbrev pub ok_or : Option A → E → Result E A
  ok_or none e = err e
  ok_or (some a) e = ok a

  abbrev pub is_ok : Result E A → Bool
  is_ok (ok a) = true
  is_ok (err e) = false

-- `if failed { return Err(e) }`
abbrev pub refuse_if {ℓ} : {E : Type ℓ} → Bool → E → Result E Unit
refuse_if true e = err e
refuse_if false e = ok tt

module _ {ℓ} {E A : Type ℓ} where
  pub ok-injective : {x y : A} → Path (Result E A) (ok x) (ok y) → x ≡ y
  ok-injective h = cc

  pub Result-cases : (r : Result E A) → ((a : A) × (r ≡ ok a)) ⊎ ((e : E) × (r ≡ err e))
  Result-cases (ok a) = inl (a, refl)
  Result-cases (err e) = inr (e, refl)

pub map_err-ok {ℓ} :
    {E F A : Type ℓ} (f : E → F) (r : Result E A) {a : A} → map_err f r ≡ ok a → r ≡ ok a
map_err-ok f (ok b) h = ap ok (ok-injective h)
map_err-ok f (err e) h = cc h
