-- ===== src/Prelude.antt =====
-- The names that the other modules share: the libraries', passed on, and those of the children.
mod Tests
mod Lists
mod Strings
mod Int
mod Maps
pub mod Decimal
pub mod Checked
pub mod Members
pub use Tests.*
pub use Lists.*
unfoldable pub use Strings.{text_eq, text_lt, is_space}
unfoldable pub use Decimal.{decimal, pad_start}
pub use Decimal.*
pub use Strings.*
unfoldable pub use Int.{◌+ℤ◌, ◌-ℤ◌}
pub use Int.*
unfoldable pub use Maps.{get, put, remove}
pub use Maps.*
pub use Prim.Native.Nat.{ℕ, zero, suc, ◌+◌, ◌-◌, ◌*◌, ◌/◌, ◌%◌, ◌^◌, ◌≤◌, ◌<◌}
pub use Prim.Native.String.{String}
pub use mathlib.Core.Path.{◌≡◌, refl, sym, ap, ◌∙◌}
pub use mathlib.Core.Logic.{◌≢◌, ◌↔◌, ◌⊎◌, inl, inr}
pub use mathlib.Core.Bool.{Bool, true, false, ◌&&◌, ◌||◌, not}
pub use mathlib.Core.Option.{Option, none, some}
pub use mathlib.Core.List.{List, [], ◌∷◌, ◌++◌, map}
pub use native.Mathlib.Omega.{arith}
