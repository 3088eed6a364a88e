-- ===== src/Prelude/Results.antt =====
-- Go's `(value, error)` results as a value or an error of the model's own type.
use mathlib.Core.Path.{◌≡◌, refl}

pub data Result {ℓ κ} (E : Type ℓ) (A : Type κ) : Type (ℓ ⊔ κ) where
  ok : A → Result E A
  err : E → Result E A

-- `if err != nil { return err }`, and on with the value.
module _ {ℓ κ μ} {E : Type ℓ} {A : Type κ} {B : Type μ} where
  infixl 5 ◌>>=◌
  abbrev pub ◌>>=◌ : Result E A → (A → Result E B) → Result E B
  err failure >>= next = err failure
  ok value >>= next = next value

  -- A chain that succeeded passed its first step, and went on from the value of that.
  pub >>=-eq-ok :
      (first : Result E A) (next : A → Result E B) {last : B}
      → first >>= next ≡ ok last
      → (value : A) × (first ≡ ok value) × (next value ≡ ok last)
  >>=-eq-ok (err failure) next returned = cc returned
  >>=-eq-ok (ok value) next returned = (value, refl, returned)
