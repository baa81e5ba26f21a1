-- ===== src/Base/Results.antt =====
-- Results that are an error or a value.
use mathlib.Core.Path.{◌≡◌, refl}
use mathlib.Core.Logic.{◌⊎◌, inl, inr}

-- To split on a result and keep the equation.
pub result-cases {ℓ κ} :
    {A : Type ℓ} {B : Type κ} (s : A ⊎ B) → ((a : A) × (s ≡ inl a)) ⊎ ((b : B) × (s ≡ inr b))
result-cases (inl a) = inl (a, refl)
result-cases (inr b) = inr (b, refl)

pub inr_inj {ℓ κ} : {A : Type ℓ} {B : Type κ} {a b : B} → ◌≡◌ {A = A ⊎ B} (inr a) (inr b) → a ≡ b
inr_inj e = cc e

pub inl-ne-inr {ℓ κ} :
    {A : Type ℓ} {B : Type κ} {a : A} {b : B} → ◌≡◌ {A = A ⊎ B} (inl a) (inr b) → ⊥
inl-ne-inr e = cc e
