-- ===== src/Prelude.antt =====
-- The names that the other modules share: the library's, passed on, and those of the children
-- (Boolean tests, lists indexed by native numbers, machine words).
mod Tests
mod Lists
mod Words
mod Bytes
mod Bits
pub mod Checked
pub use Tests.*
pub use Lists.*
pub use Words.*
unfoldable pub use Bytes.*
unfoldable pub use Bits.*
pub use Prim.Native.Nat.{
  ℕ, zero, suc, ◌+◌, ◌-◌, ◌*◌, ◌/◌, ◌%◌, ◌^◌, ◌≤◌, ◌<◌, min, max, bit_and, bit_or, bit_xor,
}
pub use mathlib.Core.Path.{◌≡◌, refl, sym, ap, ◌∙◌, subst}
pub use mathlib.Core.Logic.{◌≢◌, ◌↔◌, ◌⊎◌, inl, inr}
pub use mathlib.Core.Bool.{Bool, true, false, not, ◌&&◌, ◌||◌}
pub use mathlib.Core.Option.{Option, none, some}
pub use mathlib.Core.List.{List, [], ◌∷◌, ◌++◌, map}
pub use native.Mathlib.Omega.{arith}
