-- ===== src/Base/Outcome.antt =====
-- Rust's `Result<A, E>`, with the panic that ends a call early as a third outcome.
use mathlib.Core.Path.{◌≡◌, refl}
use mathlib.Core.Logic.{◌⊎◌, inl, inr}

pub data Result {ℓ κ} (E : Type ℓ) (A : Type κ) : Type (ℓ ⊔ κ) where
  ok : A → Result E A
  err : E → Result E A
  panic : Result E A

-- the operator `?`
infixl 5 ◌>>=◌
abbrev pub ◌>>=◌ {ℓ κ μ} :
    {E : Type ℓ} {A : Type κ} {B : Type μ} → Result E A → (A → Result E B) → Result E B
ok a >>= f = f a
err e >>= f = err e
panic >>= f = panic

-- `.map_err(|_| e)`
abbrev pub map_err {ℓ κ μ} : {D : Type ℓ} {E : Type κ} {A : Type μ} → E → Result D A → Result E A
map_err e (ok a) = ok a
map_err e (err d) = err e
map_err e panic = panic

-- The call came to an end in the value `a`, and `P a` holds.
abbrev pub Returns {ℓ κ μ} :
    {E : Type ℓ} {A : Type κ} → Result E A → (A → Type μ) → Type (κ ⊔ μ ⊔ ℓ)
Returns {A} r P = (a : A) × (r ≡ ok a) × P a

pub Result-cases {ℓ κ} :
    {E : Type ℓ} {A : Type κ} (r : Result E A)
    → ((a : A) × (r ≡ ok a)) ⊎ ((e : E) × (r ≡ err e)) ⊎ (r ≡ panic)
Result-cases (ok a) = inl (a, refl)
Result-cases (err e) = inr (inl (e, refl))
Result-cases panic = inr (inr refl)
