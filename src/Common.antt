-- ===== src/Common.antt =====
-- The names that the other modules share: the libraries', passed on, Boolean tests, integers,
-- texts and sums over lists.
mod Tests
mod Lists
pub mod Int
pub mod Text
pub mod Money
pub mod Sums
pub mod Dict
pub mod Sorting
pub mod Membership
pub mod Json
pub mod Products
pub mod Double
pub use Tests.*
pub use Lists.*
pub use Text.{same_text_iff, same_text?_iff, leb_text}
unfoldable pub use Text.{same_text, same_text?, count_chars, non_empty, starts_with, remove_prefix}
pub use Prim.Native.Nat.{ℕ, zero, suc, ◌+◌, ◌-◌, ◌*◌, ◌/◌, ◌%◌, ◌^◌, ◌≤◌, ◌<◌}
pub use Prim.Native.String.{String}
pub use mathlib.Core.Path.{◌≡◌, refl, sym, ap, ◌∙◌, subst}
pub use mathlib.Core.Logic.{◌≢◌, ◌↔◌, ◌⊎◌, inl, inr}
pub use mathlib.Core.Bool.{Bool, true, false, not, ◌&&◌, ◌||◌}
pub use mathlib.Core.Option.{Option, none, some}
pub use mathlib.Core.List.{List, [], ◌∷◌, ◌++◌, map}
pub use native.Mathlib.Omega.{arith}
