-- ===== src/Prelude/Filter.antt =====
-- `filter` and `any` by Boolean tests, which run (the library's take decisions).
use mathlib.Core.Bool.{Bool, true, false, ◌||◌}
use mathlib.Core.List.{List, [], ◌∷◌}
use cynosure.Prelude.Tests.{if◌then◌else◌}

module _ {ℓ} {A : Type ℓ} (p : A → Bool) where
  abbrev pub filter : List A → List A
  filter [] = []
  filter (x ∷ xs) = let rest = filter xs in if p x then x ∷ rest else rest

  abbrev pub reject : List A → List A
  reject [] = []
  reject (x ∷ xs) = let rest = reject xs in if p x then rest else x ∷ rest

  abbrev pub any : List A → Bool
  any [] = false
  any (x ∷ xs) = p x || any xs

abbrev pub is_nil {ℓ} : {A : Type ℓ} → List A → Bool
is_nil [] = true
is_nil (x ∷ xs) = false
