-- ===== src/Base/Outcome.antt =====
-- What code that may throw returns: a value, or the error thrown.
use mathlib.Core.Path.{◌≡◌, refl}

pub data Result {ℓ κ} (E : Type ℓ) (A : Type κ) : Type (ℓ ⊔ κ) where
  ok : A → Result E A
  err : E → Result E A

-- What follows runs on the value; an error thrown passes by it.
infixl 5 ◌>>=◌
abbrev pub ◌>>=◌ {ℓ κ μ} :
    {E : Type ℓ} {A : Type κ} {B : Type μ} (run : Result E A) (next : A → Result E B) → Result E B
err thrown >>= next = err thrown
ok value >>= next = next value

-- A chain that ends well has had a value of each of its runs.
pub bind-eq-ok {ℓ κ μ} :
    {E : Type ℓ} {A : Type κ} {B : Type μ} {result : B} (run : Result E A) (next : A → Result E B)
    → (run >>= next) ≡ ok result
    → (value : A) × (next value ≡ ok result) × (run ≡ ok value)
bind-eq-ok (err thrown) next h = cc
bind-eq-ok (ok value) next h = (value, h, refl)
