-- ===== src/Common.antt =====
-- The names that the other modules share.
mod Tests
mod Lists
pub mod Maps
pub mod Ensures
mod Bytes
mod Words
mod Abort
pub use Tests.*
pub use Lists.*
unfoldable pub use Words.*
unfoldable pub use Bytes.*
pub use Abort.{Outcome, ret, fatal, ◌>>=◌, ◌>>◌, check, or_fatal, Outcome-cases, >>=-eq-ret}
pub use Prim.Native.Nat.{ℕ, zero, suc, ◌+◌, ◌-◌, ◌*◌, ◌/◌, ◌%◌, ◌^◌, ◌≤◌, ◌<◌, min, max}
pub use mathlib.Core.Path.{◌≡◌, refl, sym, ap, ◌∙◌, subst}
pub use mathlib.Core.Logic.{◌≢◌, ◌↔◌, ◌⊎◌, inl, inr}
pub use mathlib.Core.Bool.{Bool, true, false, not, ◌&&◌, ◌||◌}
pub use mathlib.Core.Option.{Option, none, some}
pub use mathlib.Core.List.{List, [], ◌∷◌, ◌++◌, map}
pub use native.Mathlib.Omega.{arith}
