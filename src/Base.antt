-- ===== src/Base.antt =====
-- What the modules share: library names passed on, Boolean tests, lists over the native numbers,
-- big-endian numbers, results with panics, and texts.
mod Tests
mod Lists
mod Chunks
mod Bytes
mod Results
pub mod Panics
mod Texts
mod Unsigned
unfoldable pub use Tests.*
pub use Lists.*
pub use Chunks.*
unfoldable pub use Bytes.*
pub use Results.*
unfoldable pub use Texts.*
pub use Unsigned.{
  ParseIntError, IsDigit, spelled, IsNumeral, parse_unsigned_iff, decimal-IsNumeral, decimal_digits,
  parse_unsigned-no_panic,
}
unfoldable pub use Unsigned.{parse_unsigned, display_parse_int_error}
pub use Prim.Native.Nat.{ℕ, zero, suc, ◌+◌, ◌-◌, ◌*◌, ◌/◌, ◌%◌, ◌^◌, ◌≤◌, ◌<◌, min, max}
pub use mathlib.Core.Path.{◌≡◌, refl, sym, ap, ap₂, ◌∙◌}
pub use mathlib.Core.Logic.{◌≢◌, ◌↔◌, ◌⊎◌, inl, inr}
pub use mathlib.Core.Bool.{Bool, true, false, not, ◌&&◌, ◌||◌}
pub use mathlib.Core.Option.{Option, none, some}
pub use mathlib.Core.List.{List, [], ◌∷◌, ◌++◌, map}
pub use native.Mathlib.Omega.{arith}
