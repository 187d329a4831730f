-- ===== src/Prelude.antt =====
-- Names that all the other modules share: the libraries', passed on, and those of the children.
mod Tests
mod Lists
mod Window
mod Classes
mod Assoc
mod SameMap
mod Words
mod Integers
mod Sorting
mod Texts
pub use Tests.*
pub use Lists.*
pub use Window.*
pub use Classes.*
pub use Assoc.*
pub use SameMap.*
pub use Words.*
pub use Integers.*
unfoldable pub use Sorting.*
pub use Texts.*
pub use Prim.Native.Nat.{ℕ, zero, suc, ◌+◌, ◌-◌, ◌*◌, ◌/◌, ◌%◌, ◌^◌, ◌≤◌, ◌<◌, min, max}
pub use Prim.Native.String.{String}
pub use mathlib.Core.Path.{◌≡◌, refl, sym, ap, ap₂, ◌∙◌, subst}
pub use mathlib.Core.Logic.{◌≢◌, ◌↔◌, ◌⊎◌, inl, inr}
pub use mathlib.Core.Bool.{Bool, true, false, ◌&&◌, ◌||◌, not}
pub use mathlib.Core.Option.{Option, none, some}
pub use mathlib.Core.List.{List, [], ◌∷◌, ◌++◌, map, append-nil, append_assoc, map-append}
pub use native.Mathlib.Omega.{arith}
