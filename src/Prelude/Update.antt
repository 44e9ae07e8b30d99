-- ===== src/Prelude/Update.antt =====
-- Functions from indices, changed at one place.
use Prim.Native.Nat.{ℕ}
use mathlib.Core.Path.{◌≡◌, refl, ap, fun_ext}
use mathlib.Core.Logic.{◌≢◌, inl, inr}
use mathlib.Core.Option.{Option, none, some}
use cynosure.Prelude.Tests.{◌==◌, if◌then◌else◌, Bool-cases, eq→==, ne→==-false, ==→eq}

module _ {ℓ} {A : Type ℓ} where
  abbrev pub update : (ℕ → A) → ℕ → A → ℕ → A
  update f i a j = if i == j then a else f j

  pub update_self : (f : ℕ → A) (i : ℕ) (a : A) → update f i a i ≡ a
  update_self f i a = rw (eq→== i i refl)

  pub update_ne : (f : ℕ → A) (i j : ℕ) (a : A) → i ≢ j → update f i a j ≡ f j
  update_ne f i j a h = rw (ne→==-false i j h)

  pub update_same : (f : ℕ → A) (i : ℕ) → update f i (f i) ≡ f
  update_same f i =
      fun_ext λ j. elim (Bool-cases (i == j)) [ inl e ↦ rw e (ap f (==→eq i j e)) | inr e ↦ rw e ]

module _ {ℓ} {A : Type ℓ} where
  -- Emptying one place leaves the others.
  pub update-none :
      (f : ℕ → Option A) (i j : ℕ) (a : A) → update f i none j ≡ some a → (i ≢ j) × (f j ≡ some a)
  update-none f i j a h = elim (Bool-cases (i == j)) [
    | inl e ↦ absurd (cc (rw e at h))
    | inr e ↦ (λ q. cc (eq→== i j q), rw e at h)
  ]
