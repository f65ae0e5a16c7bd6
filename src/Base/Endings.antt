-- ===== src/Base/Endings.antt =====
-- How a C++ call ends: with a value, with an exception, or in undefined behaviour (a read outside
-- an object, an overflow of a signed number).
use mathlib.Core.Path.{◌≡◌, refl}

pub data Outcome {ℓ} (A : Type ℓ) : Type ℓ where
  ok : A → Outcome A
  thrown : Outcome A
  undefined : Outcome A

infixl 5 ◌>>=◌
abbrev pub ◌>>=◌ {ℓ κ} : {A : Type ℓ} {B : Type κ} → Outcome A → (A → Outcome B) → Outcome B
ok a >>= f = f a
thrown >>= f = thrown
undefined >>= f = undefined

-- What a chain that returned went through.
pub bind_returns {ℓ κ} :
    {A : Type ℓ} {B : Type κ} (f : A → Outcome B) (b : B) (m : Outcome A)
    → (m >>= f) ≡ ok b
    → (a : A) × ((m ≡ ok a) × (f a ≡ ok b))
bind_returns f b (ok a) through = (a, (refl, through))
bind_returns f b thrown through = cc
bind_returns f b undefined through = cc
