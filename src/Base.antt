-- ===== src/Base.antt =====
-- The names that every module shares: those of the libraries, passed on, and the children's:
-- Boolean tests, lists over the native numbers, results of fallible code, big-endian integers.
mod Test
mod Outcome
mod Seq
pub mod Slice
pub mod Ascii
pub mod BigEndian
mod Range
pub mod Loop
pub mod Int
pub use Test.*
pub use Outcome.*
unfoldable pub use Slice.*
unfoldable pub use Ascii.*
unfoldable pub use BigEndian.*
unfoldable pub use Seq.*
unfoldable pub use Range.*
pub use Prim.Native.Nat.{ℕ, zero, suc, ◌+◌, ◌-◌, ◌*◌, ◌/◌, ◌%◌, ◌^◌, ◌≤◌, ◌<◌, min}
pub use mathlib.Core.Path.{◌≡◌, refl, sym, ap, ◌∙◌}
pub use mathlib.Core.Logic.{◌≢◌, ◌↔◌, ◌⊎◌, inl, inr, ite, if_pos, if_neg}
pub use mathlib.Core.Bool.{Bool, true, false, not, ◌&&◌, ◌||◌}
pub use mathlib.Core.Option.{Option, none, some}
pub use mathlib.Core.List.{List, [], ◌∷◌, ◌++◌, map}
pub use native.Mathlib.Omega.{arith}
unfoldable pub use native.Mathlib.Decide.{ℕ_discrete}
