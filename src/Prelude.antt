-- ===== src/Prelude.antt =====
-- Shared notation and helpers: the library names that every module takes from here, Boolean tests,
-- lists over the native numbers, equality as an interface, texts, ordered maps and results.
mod Tests
mod Lists
pub mod Eq
pub mod Text
pub mod BTreeMap
pub mod Result
pub mod Int
pub mod Json
pub mod F64
pub mod Render
pub mod TextOrder
unfoldable pub use Tests.*
unfoldable pub use Lists.*
pub use Prim.Native.Nat.{ℕ, zero, suc, ◌+◌, ◌-◌, ◌*◌, ◌/◌, ◌%◌, ◌^◌, ◌≤◌, ◌<◌, min, max}
pub use mathlib.Core.Path.{◌≡◌, refl, sym, ap, ◌∙◌, subst}
pub use mathlib.Core.Logic.{◌≢◌, ◌↔◌, ◌⊎◌, inl, inr}
pub use mathlib.Core.Bool.{Bool, true, false, not, ◌&&◌, ◌||◌}
pub use mathlib.Core.Option.{Option, none, some}
pub use mathlib.Core.List.{List, [], ◌∷◌, ◌++◌, map}
pub use native.Mathlib.Omega.{arith}
