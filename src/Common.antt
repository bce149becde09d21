-- ===== src/Common.antt =====
-- Names shared by all modules: the libraries', passed on, and tests, lists and counts of our own.
mod Tests
mod Lists
mod Count
mod Bits
pub use Tests.*
unfoldable pub use Lists.{bytes_eq}
pub use Lists.*
unfoldable pub use Count.{holds_below}
pub use Count.*
unfoldable pub use Bits.{bit_at}
pub use Bits.*
pub use Prim.Native.Nat.{
  ℕ, zero, suc, ◌+◌, ◌-◌, ◌*◌, ◌/◌, ◌%◌, ◌^◌, ◌≤◌, ◌<◌, min, max, bit_xor, bit_and, bit_or,
}
pub use mathlib.Core.Path.{◌≡◌, refl, sym, ap, ap₂, subst, ◌∙◌}
pub use mathlib.Core.Logic.{◌≢◌, ◌↔◌, ◌⊎◌, inl, inr}
pub use mathlib.Core.Bool.{Bool, true, false, not, ◌&&◌, ◌||◌}
pub use mathlib.Core.Option.{Option, none, some}
pub use mathlib.Core.List.{List, [], ◌∷◌, ◌++◌, map, reverse, append_assoc, append-nil}
pub use native.Mathlib.Omega.{arith}
