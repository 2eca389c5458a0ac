-- ===== src/Base/Results.antt =====
-- The results of functions that return a value and an error, and early returns on an error.
use mathlib.Core.Path.{◌≡◌, refl, ap}
use mathlib.Core.Logic.{◌⊎◌, inl, inr}
use native.Mathlib.Omega.{arith}

pub data Result {ℓ} (E : Type 0) (A : Type ℓ) : Type ℓ where
  ok : A → Result E A
  err : E → Result E A

module _ {ℓ κ} {E : Type 0} {A : Type ℓ} {B : Type κ} where
  -- Go on with the value, or return the error.
  unfoldable pub bind : Result E A → (A → Result E B) → Result E B
  bind (ok a) f = f a
  bind (err e) f = err e

  -- What the rest gives on every value holds of the whole.
  pub bind_ok {μ} :
      (P : B → Type μ) (r : Result E A) (f : A → Result E B)
      → ((a : A) → r ≡ ok a → (b : B) → f a ≡ ok b → P b)
      → (b : B) → bind r f ≡ ok b
      → P b
  unfolding bind
  bind_ok P (ok a) f h b e = h a refl b e
  bind_ok P (err x) f h b e = absurd (ground arith)

value_or {ℓ} : {E : Type 0} {A : Type ℓ} → A → Result E A → A
value_or a (ok b) = b
value_or a (err e) = a

pub ok-injective {ℓ} :
    {E : Type 0} {A : Type ℓ} {a b : A} → ◌≡◌ {A = Result E A} (ok a) (ok b) → a ≡ b
unfolding value_or
ok-injective {a = a} h = ap (value_or a) h

pub Result-cases {ℓ} :
    {E : Type 0} {A : Type ℓ} (r : Result E A) → ((a : A) × (r ≡ ok a)) ⊎ ((e : E) × (r ≡ err e))
Result-cases (ok a) = inl (a, refl)
Result-cases (err e) = inr (e, refl)
