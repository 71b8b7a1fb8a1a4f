-- ===== src/Prelude/Outcomes.antt =====
-- What a Python call comes to: a value, or an exception that reaches the caller.
use mathlib.Core.Logic.{◌⊎◌, inl, inr}
use mathlib.Core.Path.{◌≡◌, refl}

pub data Outcome {ℓ} (A : Type ℓ) : Type ℓ where
  ok : A → Outcome A
  raised : Outcome A

infixl 5 ◌>>=◌
abbrev pub ◌>>=◌ {ℓ κ} : {A : Type ℓ} {B : Type κ} → Outcome A → (A → Outcome B) → Outcome B
ok a >>= f = f a
raised >>= f = raised

pub Outcome-cases {ℓ} : {A : Type ℓ} (o : Outcome A) → (o ≡ raised) ⊎ ((a : A) × (o ≡ ok a))
Outcome-cases raised = inl refl
Outcome-cases (ok a) = inr (a, refl)

pub ok_injective {ℓ} : {A : Type ℓ} {a b : A} → ok a ≡ ok b → a ≡ b
ok_injective h = cc
