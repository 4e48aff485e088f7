-- ===== src/Common.antt =====
-- The names that the other modules share: the libraries', passed on, and those of the children,
-- which model the parts of the Rust standard library that the pool uses.
mod Tests
mod Results
mod Lists
pub mod Bytes
pub mod Map
pub mod Entries
pub mod Gcd
pub mod Words
pub mod Sort
pub mod Int
pub mod Max
pub mod Sift
pub mod Text
pub use Tests.*
pub use Results.*
pub use Lists.*
pub use Prim.Native.Nat.{
  ℕ, zero, suc, ◌+◌, ◌-◌, ◌*◌, ◌/◌, ◌%◌, ◌^◌, ◌≤◌, ◌<◌, ◌∣◌, min, max, compare, Ordering,
}
pub use mathlib.Core.Path.{◌≡◌, refl, sym, ap, ◌∙◌, subst}
pub use mathlib.Core.Logic.{◌≢◌, ◌↔◌, ◌⊎◌, inl, inr}
pub use mathlib.Core.Bool.{Bool, true, false, ◌&&◌, ◌||◌, not}
pub use mathlib.Core.Option.{Option, none, some}
pub use mathlib.Core.List.{List, [], ◌∷◌, ◌++◌, map}
pub use native.Mathlib.Omega.{arith}
