-- ===== src/Base.antt =====
-- The names that the other modules share: the libraries', passed on, and those of the children.
mod Tests
mod Lists
mod Utf8
mod Dict
mod Errors
mod Bytes
mod Loops
pub use Tests.*
pub use Lists.*
unfoldable pub use Utf8.{is_utf8}
pub use Utf8.{Text, text_eq, text_eq_iff}
pub use Errors.*
unfoldable pub use Loops.{for_range, tabulate}
pub use Loops.{for_range_inv, length-tabulate, get_or-tabulate}
unfoldable pub use Bytes.{le_bytes, from_le}
pub use Bytes.{IsByte, length-le_bytes, from_le-le_bytes, le_bytes-IsByte}
unfoldable pub use Dict.{Map, empty, lookup, insert, remove}
pub use Dict.{
  lookup-insert, lookup-remove, lookup-All, IsMap, insert-IsMap, remove-IsMap, All-lookup, Key,
  Text-Key, ℕ-Key,
}
pub use Prim.Native.Nat.{
  ℕ, zero, suc, ◌+◌, ◌-◌, ◌*◌, ◌/◌, ◌%◌, ◌^◌, ◌≤◌, ◌<◌, min, max, bit_and, bit_xor,
}
pub use mathlib.Core.Path.{◌≡◌, refl, sym, ap, ◌∙◌}
pub use mathlib.Core.Logic.{◌≢◌, ◌↔◌, ◌⊎◌, inl, inr}
pub use mathlib.Core.Bool.{Bool, true, false, ◌&&◌, ◌||◌, not}
pub use mathlib.Core.Option.{Option, none, some}
pub use mathlib.Core.List.{List, [], ◌∷◌, ◌++◌, map, append-nil, append_assoc}
pub use native.Mathlib.Omega.{arith}
