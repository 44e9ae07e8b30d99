-- ===== src/Prelude/Outcome.antt =====
-- The outcome of Rust code that can panic (an index out of bounds, a failed `assert!`) or that
-- would be undefined behaviour (a read of a slot that holds no value).
use mathlib.Core.Path.{◌≡◌, sym, ap, ◌∙◌, subst}

pub data Exec {ℓ} (A : Type ℓ) : Type ℓ where
  done : A → Exec A
  panic : Exec A
  fault : Exec A

infixl 5 ◌>>=◌
abbrev pub ◌>>=◌ {ℓ κ} : {A : Type ℓ} {B : Type κ} → Exec A → (A → Exec B) → Exec B
done a >>= f = f a
panic >>= f = panic
fault >>= f = fault

-- The code returns, and its result satisfies `P`: total correctness in one statement.
abbrev pub Returns {ℓ κ} : {A : Type ℓ} → Exec A → (A → Type κ) → Type (ℓ ⊔ κ)
Returns {A} r P = (a : A) × (r ≡ done a) × P a

pub Returns-bind {ℓ κ μ ν} :
    {A : Type ℓ} {B : Type κ} {P : A → Type μ} {Q : B → Type ν} (r : Exec A) (f : A → Exec B)
    → Returns r P
    → ((a : A) → P a → Returns (f a) Q)
    → Returns (r >>= f) Q
Returns-bind r f (a, e, h) k = rw (e, ◌>>=◌) (k a h)

-- What is known of the result holds of the value that was returned.
pub Returns-at {ℓ κ} :
    {A : Type ℓ} {P : A → Type κ} (r : Exec A) (a : A) → Returns r P → r ≡ done a → P a
Returns-at {A} {P} r a (b, e, h) f = subst P (ap out (sym e ∙ f)) h
  where
    out : Exec A → A
    out (done c) = c
    out panic = b
    out fault = b
