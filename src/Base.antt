-- ===== src/Base.antt =====
-- The names that the other modules share.
mod Tests
mod Lists
mod Handles
mod Text
mod Words
mod Maps
mod Outcomes
mod Sorting
pub use Tests.*
pub use Lists.*
unfoldable pub use Handles.*
unfoldable pub use Text.*
unfoldable pub use Words.*
unfoldable pub use Maps.*
pub use Outcomes.*
unfoldable pub use Sorting.*
pub use Prim.Native.Nat.{ℕ, zero, suc, ◌+◌, ◌-◌, ◌*◌, ◌/◌, ◌%◌, ◌^◌, ◌≤◌, ◌<◌}
pub use mathlib.Core.Path.{◌≡◌, refl, sym, ap, ◌∙◌}
pub use mathlib.Core.Logic.{◌≢◌, ◌↔◌, ◌⊎◌, inl, inr}
pub use mathlib.Core.Bool.{Bool, true, false, not, ◌&&◌, ◌||◌}
pub use mathlib.Core.Option.{Option, none, some}
pub use mathlib.Core.List.{List, [], ◌∷◌, ◌++◌, map}
pub use native.Mathlib.Omega.{arith}
