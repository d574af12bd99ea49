-- ===== src/Base/Throwing.antt =====
-- A computation that may throw. A thrown value is told apart by its kind alone; messages are left
-- out.
use mathlib.Core.Path.{◌≡◌, refl}
use mathlib.Core.Logic.{◌⊎◌, inl, inr}

pub data Outcome {ℓ} (Thrown : Type ℓ) (Value : Type ℓ) : Type ℓ where
  throws : Thrown → Outcome Thrown Value
  ok : Value → Outcome Thrown Value

module _ {ℓ} {Thrown Value Next : Type ℓ} where
  infixl 5 ◌>>=◌
  -- What follows runs unless something was thrown.
  abbrev pub ◌>>=◌ : Outcome Thrown Value → (Value → Outcome Thrown Next) → Outcome Thrown Next
  throws thrown >>= next = throws thrown
  ok value >>= next = next value

  -- A chain that returns has returned at every step.
  pub >>=-eq-ok :
      (first : Outcome Thrown Value) (next : Value → Outcome Thrown Next) {result : Next}
      → (first >>= next) ≡ ok result
      → (value : Value) × (first ≡ ok value) × (next value ≡ ok result)
  >>=-eq-ok (throws thrown) next returned = cc
  >>=-eq-ok (ok value) next returned = (value, refl, returned)

module _ {ℓ} {Thrown Value : Type ℓ} where
  pub Outcome-cases :
      (m : Outcome Thrown Value)
      → ((value : Value) × (m ≡ ok value)) ⊎ ((thrown : Thrown) × (m ≡ throws thrown))
  Outcome-cases (throws thrown) = inr (thrown, refl)
  Outcome-cases (ok value) = inl (value, refl)

  pub ok_injective : {a b : Value} → Path (Outcome Thrown Value) (ok a) (ok b) → a ≡ b
  ok_injective h = cc h
