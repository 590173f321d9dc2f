-- ===== src/Prelude/Throws.antt =====
-- What a function that may throw gives: a value, or the error that it throws.
use mathlib.Core.Path.{◌≡◌, refl}
use mathlib.Core.Logic.{◌⊎◌, inl, inr}

pub data Outcome {ℓ κ} (E : Type ℓ) (A : Type κ) : Type (ℓ ⊔ κ) where
  ok : A → Outcome E A
  throw : E → Outcome E A

module _ {ℓ κ μ} {E : Type ℓ} {A : Type κ} {B : Type μ} where
  infixl 5 ◌>>=◌
  -- What comes next runs only on a value.
  abbrev pub ◌>>=◌ : Outcome E A → (A → Outcome E B) → Outcome E B
  throw error >>= rest = throw error
  ok value >>= rest = rest value

  pub >>=-eq-ok :
      (first : Outcome E A) (rest : A → Outcome E B) {end : B}
      → (first >>= rest) ≡ ok end
      → (value : A) × (first ≡ ok value) × (rest value ≡ ok end)
  >>=-eq-ok (throw error) rest h = cc
  >>=-eq-ok (ok value) rest h = (value, refl, h)

pub Outcome-cases {ℓ κ} :
    {E : Type ℓ} {A : Type κ} (o : Outcome E A)
    → ((error : E) × (o ≡ throw error)) ⊎ ((value : A) × (o ≡ ok value))
Outcome-cases (throw error) = inl (error, refl)
Outcome-cases (ok value) = inr (value, refl)
