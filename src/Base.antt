-- ===== src/Base.antt =====
-- The names that the other modules share: the libraries', passed on, Boolean tests, and the
-- tables of the metadata database as lists of rows.
mod Tests
mod Rows
mod RowLaws
mod Counts
mod Found
mod Sort
mod Texts
unfoldable pub use Tests.*
unfoldable pub use Rows.*
pub use RowLaws.*
pub use Counts.*
pub use Found.*
unfoldable pub use Sort.*
unfoldable pub use Texts.*
pub use Prim.Native.Nat.{ℕ, zero, suc, ◌+◌, ◌-◌, ◌*◌, ◌/◌, ◌%◌, ◌^◌, ◌≤◌, ◌<◌}
pub use Prim.Native.String.{String}
pub use mathlib.Core.Path.{◌≡◌, refl, sym, ap, ap₂, subst, subst₂, ◌∙◌}
pub use mathlib.Core.Logic.{◌≢◌, ◌↔◌, ◌⊎◌, inl, inr}
pub use mathlib.Core.Bool.{Bool, true, false, not, ◌&&◌, ◌||◌}
pub use mathlib.Core.Option.{Option, none, some}
pub use mathlib.Core.List.{List, [], ◌∷◌, ◌++◌, map}
pub use native.Mathlib.Omega.{arith}
