-- ===== src/Base.antt =====
-- The names that all other modules share: the libraries', passed on, with byte lists, bounded
-- vectors, the error values of Include/Error and the result of a call.
mod Tests
mod Lists
pub mod Codes
mod Errors
mod Outcome
mod Vectors
pub mod Steps
pub mod Posts
pub mod Bits
pub use Tests.*
pub use Lists.*
pub use Errors.*
pub use Outcome.*
unfoldable pub use Vectors.*
pub use Prim.Native.Nat.{ℕ, zero, suc, ◌+◌, ◌-◌, ◌*◌, ◌/◌, ◌%◌, ◌^◌, ◌≤◌, ◌<◌}
pub use Prim.Native.Nat.{bit_and, bit_or, bit_xor, min}
pub use mathlib.Core.Path.{◌≡◌, refl, sym, ap, ap₂, ◌∙◌, subst}
pub use mathlib.Core.Logic.{◌≢◌, ◌↔◌, ◌⊎◌, inl, inr}
pub use mathlib.Core.Bool.{Bool, true, false, not, ◌&&◌, ◌||◌}
pub use mathlib.Core.Option.{Option, none, some}
pub use mathlib.Core.List.{List, [], ◌∷◌, ◌++◌, map, append-nil, append_assoc}
pub use native.Mathlib.Omega.{arith}
