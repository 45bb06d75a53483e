-- ===== src/Prelude.antt =====
-- The names that the other modules share: the libraries', passed on, and those of two children.
mod Tests
mod Lists
mod Slices
mod Bytes
mod Text
pub use Bytes.{length-le_bytes, le_value-le_bytes, take-append, drop-append}
unfoldable pub use Bytes.{le_bytes, le_value}
unfoldable pub use Text.{
  c_string, before_zero, strncpy, starts_with, strstr, digits, print_int, leading_number, atoi,
  getline,
}
pub use Text.{codes, ℤ, pos, negsuc, is_digit, opposite, length-digits_le, length-digits_lt}
pub use Tests.*
pub use Lists.*
unfoldable pub use Slices.{slice}
pub use Slices.{
  drop-drop, slice-set, slice-cons, slice-zero, length-slice, drop_all, take_all, slice-append-drop,
  slice-to_end,
}
pub use Prim.Native.Nat.{ℕ, zero, suc, ◌+◌, ◌-◌, ◌*◌, ◌/◌, ◌%◌, ◌^◌, ◌≤◌, ◌<◌, min, max}
pub use mathlib.Core.Path.{◌≡◌, refl, sym, ap, ◌∙◌, subst}
pub use mathlib.Core.Logic.{◌≢◌, ◌↔◌, ◌⊎◌, inl, inr}
pub use mathlib.Core.Bool.{Bool, true, false, not, ◌&&◌, ◌||◌}
pub use mathlib.Core.Option.{Option, none, some}
pub use mathlib.Core.List.{List, [], ◌∷◌, ◌++◌, map, append_assoc, append-nil}
pub use native.Mathlib.Omega.{arith}
unfoldable pub use native.Mathlib.Decide.{dec_lt, ℕ_discrete}
