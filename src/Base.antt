-- ===== src/Base.antt =====
-- The names that the components share: the library's, passed on, and those of the modules below.
mod Tests
mod Class
mod Int
mod Outcome
mod Text
pub mod Scan
pub mod Clock
pub mod Effects
pub mod Table
pub use Tests.*
pub use Class.*
pub use Int.*
pub use Outcome.*
unfoldable pub use Text.{concat, decimal}
pub use Prim.Native.Nat.{ℕ, zero, suc, ◌+◌, ◌-◌, ◌*◌, ◌/◌, ◌%◌, ◌^◌, ◌≤◌, ◌<◌}
pub use Prim.Native.String.{String}
pub use mathlib.Core.Path.{◌≡◌, refl, sym, ap, ◌∙◌, subst}
pub use mathlib.Core.Logic.{◌≢◌, ◌↔◌, ◌⊎◌, inl, inr}
pub use mathlib.Core.Bool.{Bool, true, false, not, ◌&&◌, ◌||◌}
pub use mathlib.Core.Option.{Option, none, some}
pub use mathlib.Core.List.{List, [], ◌∷◌, ◌++◌, map}
pub use native.Mathlib.Omega.{arith}
