-- ===== src/Prelude.antt =====
-- The names that every part of the model shares: the libraries' names passed on, Boolean tests,
-- lists measured by native numbers, and the outcome of code that can panic or fault.
mod Tests
mod Lists
mod Filter
mod Update
mod Outcome
pub use Tests.*
pub use Lists.*
pub use Filter.*
pub use Update.*
pub use Outcome.*
pub use Prim.Native.Nat.{ℕ, zero, suc, ◌+◌, ◌-◌, ◌*◌, ◌/◌, ◌%◌, ◌^◌, ◌≤◌, ◌<◌, min}
pub use mathlib.Core.Path.{◌≡◌, refl, sym, ap, ◌∙◌, subst}
pub use mathlib.Core.Logic.{◌≢◌, ◌↔◌, ◌⊎◌, inl, inr}
pub use mathlib.Core.Bool.{Bool, true, false, ◌&&◌, ◌||◌, not}
pub use mathlib.Core.Option.{Option, none, some}
pub use mathlib.Core.List.{List, [], ◌∷◌, ◌++◌, map, append-nil, append_assoc}
pub use native.Mathlib.Omega.{arith}
