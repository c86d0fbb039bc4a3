-- ===== src/Prelude.antt =====
-- The names that the components share: the libraries' own, passed on, and those of the children:
-- Boolean tests, lists over the native numbers, JavaScript strings as lists of code units, decimal
-- and hexadecimal numerals, integers and dictionaries.
mod Tests
mod Lists
pub mod Text
pub mod Digits
pub mod Int
pub mod Dict
pub mod Trim
pub use Tests.*
pub use Lists.*
pub use Prim.Native.Nat.{ℕ, zero, suc, ◌+◌, ◌-◌, ◌*◌, ◌/◌, ◌%◌, ◌^◌, ◌≤◌, ◌<◌}
pub use mathlib.Core.Path.{◌≡◌, refl, sym, ap, ◌∙◌}
pub use mathlib.Core.Logic.{◌≢◌, ◌↔◌, ◌⊎◌, inl, inr}
pub use mathlib.Core.Bool.{Bool, true, false, not, ◌&&◌, ◌||◌}
pub use mathlib.Core.Option.{Option, none, some}
pub use mathlib.Core.List.{List, [], ◌∷◌, ◌++◌, map, append_assoc, append-nil}
pub use native.Mathlib.Omega.{arith}
