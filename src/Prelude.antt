-- ===== src/Prelude.antt =====
-- The names that the other modules share: the library's, passed on, and those of the children.
mod Tests
mod Lists
mod Bytes
mod Decimal
mod Strings
mod Gather
mod Options
mod Searches
mod Sorting
pub use Tests.*
pub use Lists.*
unfoldable pub use Bytes.*
unfoldable pub use Decimal.*
unfoldable pub use Strings.*
pub use Gather.*
pub use Options.*
pub use Searches.*
unfoldable pub use Sorting.*
pub use Prim.Native.Nat.{ℕ, zero, suc, ◌+◌, ◌-◌, ◌*◌, ◌/◌, ◌%◌, ◌≤◌, ◌<◌, min, max}
pub use mathlib.Core.Path.{◌≡◌, refl, sym, ap, ◌∙◌, subst}
pub use mathlib.Core.Logic.{◌≢◌, ◌↔◌, ◌⊎◌, inl, inr}
pub use mathlib.Core.Bool.{Bool, true, false, not, ◌&&◌, ◌||◌}
pub use mathlib.Core.Option.{Option, none, some}
pub use mathlib.Core.List.{
  List, [], ◌∷◌, ◌++◌, map, reverse, reverse-append, reverse-reverse, append-nil, append_assoc,
  map-append,
}
pub use native.Mathlib.Omega.{arith}
