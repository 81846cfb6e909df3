-- ===== src/Base.antt =====
-- The names that the other modules share: the libraries', passed on, tests and lists over the
-- native numbers, results that carry an error, and code that changes a state and may throw.
mod Tests
mod Lists
mod Results
pub mod Assoc
pub mod Hex
pub use Tests.*
pub use Lists.*
pub use Results.{Result, ok, err, Exec, continue, ◌>>◌, >>=-eq-ok}
unfoldable pub use Results.{pure, lift, ◌>>=◌}
pub use Prim.Native.Nat.{ℕ, zero, suc, ◌+◌, ◌-◌, ◌*◌, ◌/◌, ◌%◌, ◌^◌, ◌≤◌, ◌<◌, min, max}
pub use Prim.Native.String.{String}
pub use mathlib.Core.Path.{◌≡◌, refl, sym, ap, subst, subst₂, ◌∙◌}
pub use mathlib.Core.Logic.{◌≢◌, ◌↔◌, ◌⊎◌, inl, inr}
pub use mathlib.Core.Bool.{Bool, true, false, not, ◌&&◌, ◌||◌}
pub use mathlib.Core.Option.{Option, none, some}
pub use mathlib.Core.List.{List, [], ◌∷◌, ◌++◌, map}
pub use native.Mathlib.Omega.{arith}
