-- ===== src/Prelude.antt =====
-- The names that the development shares: the libraries', passed on, and those of the children
-- (tests on numbers, lists, integers, maps, text, directories, fallible actions).
mod Tests
mod Lists
mod Int
mod Maps
mod Text
mod Prefixes
mod Sorting
mod Paths
mod Effects
pub use Tests.*
pub use Lists.*
pub use Int.*
pub use Maps.*
unfoldable pub use Text.*
pub use Prefixes.*
unfoldable pub use Sorting.*
unfoldable pub use Paths.*
unfoldable pub use Effects.*
pub use Prim.Native.Nat.{ℕ, zero, suc, ◌+◌, ◌-◌, ◌*◌, ◌/◌, ◌%◌, ◌≤◌, ◌<◌}
pub use Prim.Native.String.{String}
pub use mathlib.Core.Path.{◌≡◌, refl, sym, ap, ◌∙◌, fun_ext, subst}
pub use mathlib.Core.Logic.{◌≢◌, ◌↔◌, ◌⊎◌, inl, inr}
pub use mathlib.Core.Bool.{Bool, true, false, not, ◌&&◌, ◌||◌}
pub use mathlib.Core.Option.{Option, none, some}
pub use mathlib.Core.List.{List, [], ◌∷◌, ◌++◌, map}
pub use native.Mathlib.Omega.{arith}
pub use text.Mathlib.Text.{◌==◌}
pub use text.Mathlib.TextEquality.{eq_iff}
pub use text.Mathlib.TextPositions.{eq_refl}
