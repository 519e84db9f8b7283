-- ===== src/Prelude.antt =====
-- The names that the other modules share: the libraries', passed on, and those of the children.
mod Tests
mod Lists
pub mod Text
mod Outcome
pub mod Bytes
pub mod Numerals
pub mod Reversed
pub mod Int
pub mod Dict
pub mod Ensures
pub use Tests.*
pub use Lists.*
pub use Text.{
  GoString, bytes, str_eq_iff, str_eq_refl, has_prefix-append, append_left_cancel,
  str_eq-append_left, SlashFree, hex_encode-SlashFree,
}
unfoldable pub use Text.{str_eq, has_prefix, decimal, hex_encode, ascii_lower}
unfoldable pub use Outcome.{pure, raise, reads, raise_if, modify, ◌>>=◌}
pub use Outcome.{
  Result, ok, err, Exec, continue, ◌>>◌, Result-cases, reads_rule, raise_if_rule, modify_rule, OnOk,
  reads-OnOk, raise_if-OnOk, modify-OnOk, last-OnOk, OnOk-ok, OnOk-eq, reads-keeps, raise_if-keeps,
  modify-keeps, last-keeps,
}
pub use Prim.Native.Nat.{ℕ, zero, suc, ◌+◌, ◌-◌, ◌*◌, ◌/◌, ◌%◌, ◌^◌, ◌≤◌, ◌<◌}
pub use mathlib.Core.Path.{◌≡◌, refl, sym, ap, ◌∙◌}
pub use mathlib.Core.Logic.{◌≢◌, ◌↔◌, ◌⊎◌, inl, inr}
pub use mathlib.Core.Bool.{Bool, true, false, not, ◌&&◌, ◌||◌}
pub use mathlib.Core.Option.{Option, none, some}
pub use mathlib.Core.List.{List, [], ◌∷◌, ◌++◌, map}
pub use native.Mathlib.Omega.{arith}
