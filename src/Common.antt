-- ===== src/Common.antt =====
-- Names that every module shares: the libraries', passed on, and those of the children.
-- `Common.Exceptions` is Python's methods that mutate `self` and may raise, `Common.Value` its
-- dictionaries and JSON values, `Common.Text` what the source uses of `str`.
mod Tests
mod Lists
mod Exceptions
pub mod Int
pub mod Text
pub mod Dict
pub mod Value
pub use Tests.*
pub use Lists.*
pub use Exceptions.*
pub use Prim.Native.Nat.{ℕ, zero, suc, ◌+◌, ◌-◌, ◌*◌, ◌/◌, ◌%◌, ◌^◌, ◌≤◌, ◌<◌, min, max}
pub use Prim.Native.String.{String}
pub use mathlib.Core.Path.{◌≡◌, refl, sym, ap, ◌∙◌}
pub use mathlib.Core.Logic.{◌≢◌, ◌↔◌, ◌⊎◌, inl, inr}
pub use mathlib.Core.Bool.{Bool, true, false, not, ◌&&◌, ◌||◌}
pub use mathlib.Core.Option.{Option, none, some}
pub use mathlib.Core.List.{List, [], ◌∷◌, ◌++◌, map}
pub use native.Mathlib.Omega.{arith}
