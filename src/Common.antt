-- ===== src/Common.antt =====
-- Names that the modules of the library share: those of the native numbers, of the core libraries,
-- and of the children below (tests and conditionals, lists, byte strings, ordered maps).
mod Tests
mod Lists
mod Strings
mod Results
mod Options
pub mod OrderedMap
pub mod Decimal
pub mod Bytes
pub mod Double
pub mod Integers
pub mod Tabulate
pub use Tests.*
pub use Lists.*
unfoldable pub use Strings.*
pub use Results.*
pub use Options.*
pub use Prim.Native.Nat.{ℕ, zero, suc, ◌+◌, ◌-◌, ◌*◌, ◌/◌, ◌%◌, ◌^◌, ◌≤◌, ◌<◌, min, max}
pub use mathlib.Core.Path.{◌≡◌, refl, sym, ap, ap₂, ◌∙◌, subst}
pub use mathlib.Core.Logic.{◌≢◌, ◌↔◌, ◌⊎◌, inl, inr}
pub use mathlib.Core.Bool.{Bool, true, false, ◌&&◌, ◌||◌, not}
pub use mathlib.Core.Option.{Option, none, some}
pub use mathlib.Core.List.{List, [], ◌∷◌, ◌++◌, map, append_assoc, append-nil}
pub use native.Mathlib.Omega.{arith}
