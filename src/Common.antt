-- ===== src/Common.antt =====
-- What the other modules share: names of the libraries passed on, tests on numbers, lists
-- measured by native numbers, results with errors, signed integers for the code's `int` with -1.
mod Tests
mod Lists
mod Int
mod Results
mod Equality
pub mod Arith
pub mod Log
pub use Tests.*
pub use Lists.*
pub use Int.*
pub use Equality.{Eq, list_eq_iff}
unfoldable pub use Equality.{list_eq}
pub use Results.*
pub use Prim.Native.Nat.{ℕ, zero, suc, ◌+◌, ◌-◌, ◌*◌, ◌/◌, ◌%◌, ◌^◌, ◌≤◌, ◌<◌}
pub use mathlib.Core.Path.{◌≡◌, refl, sym, ap, subst, ◌∙◌, ◌≡⟨◌⟩◌, ◌∎}
pub use mathlib.Core.Logic.{◌≢◌, ◌↔◌, ◌⊎◌, inl, inr}
pub use mathlib.Core.Bool.{Bool, true, false, not, ◌&&◌, ◌||◌}
pub use mathlib.Core.Option.{Option, none, some}
pub use mathlib.Core.List.{List, [], ◌∷◌, ◌++◌, map}
pub use native.Mathlib.Omega.{arith}
