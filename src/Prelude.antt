-- ===== src/Prelude.antt =====
-- What the other modules share: names of the libraries, Boolean tests, lists, the values that
-- stand for Python's, and method calls with state and exceptions.
mod Tests
mod Lists
mod Values
pub mod Json
mod Strings
mod Codes
pub mod Decimals
mod Calls
pub use Tests.*
pub use Lists.*
unfoldable pub use Values.*
unfoldable pub use Strings.*
pub use Codes.*
pub use Calls.*
pub use Prim.Native.Nat.{ℕ, zero, suc, ◌+◌, ◌-◌, ◌*◌, ◌≤◌, ◌<◌}
pub use mathlib.Core.Path.{◌≡◌, refl, sym, ap, ◌∙◌}
pub use mathlib.Core.Logic.{◌≢◌, ◌↔◌, ◌⊎◌, inl, inr}
pub use mathlib.Core.Bool.{Bool, true, false, not, ◌&&◌, ◌||◌}
pub use mathlib.Core.Option.{Option, none, some}
pub use mathlib.Core.List.{List, [], ◌∷◌, ◌++◌, map}
pub use native.Mathlib.Omega.{arith}
unfoldable pub use native.Mathlib.Decide.{ℕ_discrete}
