-- ===== src/Prelude/Results.antt =====
-- The result of a fallible function, and the chain of such results.

use mathlib.Core.Path.{◌≡◌, refl, subst}

pub data Result {ℓ κ} (E : Type ℓ) (A : Type κ) : Type (ℓ ⊔ κ) where
  ok : A → Result E A
  err : E → Result E A

infixl 5 ◌>>=◌
abbrev pub ◌>>=◌ {ℓ κ μ} :
    {E : Type ℓ} {A : Type κ} {B : Type μ} → Result E A → (A → Result E B) → Result E B
ok a >>= f = f a
err e >>= f = err e

-- What holds of one value of a result holds of the other.
pub subst_ok {ℓ κ μ} :
    {E : Type ℓ} {A : Type κ} (P : A → Type μ) {a b : A}
    → ◌≡◌ {A = Result E A} (ok a) (ok b)
    → P a
    → P b
subst_ok P {a} {b} h p = let e : a ≡ b = cc in subst P e p

-- A chain that gives a value has one at its first link.
pub bound {ℓ κ μ} :
    {E : Type ℓ} {A : Type κ} {B : Type μ} (r : Result E A) (f : A → Result E B) {b : B}
    → (r >>= f) ≡ ok b
    → (a : A) × (r ≡ ok a) × (f a ≡ ok b)
bound (ok a) f h = (a, refl, h)
bound (err e) f h = cc
