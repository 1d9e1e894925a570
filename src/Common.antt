-- ===== src/Common.antt =====
-- The names that the other modules share: the libraries', passed on, and those of the children.
mod Tests
mod Lists
mod Bytes
mod Texts
mod Format
mod Splitting
pub mod Recent
pub mod Searching
pub mod Windows
pub mod Trimming
pub mod Dict
pub mod Op
pub use Tests.*
pub use Lists.*
unfoldable pub use Bytes.{
  has_prefix, text_eq, to_lower, trim_space, split_on, fields, join, contains_any, trim_prefix,
  contains_byte, trim_left, trim_right, is_space, lower_byte, drop_while, fields_from, split_from,
  index_of, contains,
}
unfoldable pub use Format.{
  to_upper, upper_byte, text_le, insert_sorted, sort_texts, quote, pad_right, quote_all, quote_byte,
  hex_digit,
}
unfoldable pub use Texts.{contains_text}
pub use Splitting.{split_on-join, All-Member}
pub use Texts.{Member, contains_text_iff}
pub use Bytes.{Text, bytes, text_eq_iff, text_eq_refl, has_prefix_iff, text_eq_sound}
pub use Prim.Native.Nat.{ℕ, zero, suc, ◌+◌, ◌-◌, ◌*◌, ◌/◌, ◌%◌, ◌^◌, ◌≤◌, ◌<◌, min}
pub use mathlib.Core.Path.{◌≡◌, refl, sym, ap, ◌∙◌}
pub use mathlib.Core.Logic.{◌≢◌, ◌↔◌, ◌⊎◌, inl, inr}
pub use mathlib.Core.Bool.{Bool, true, false, ◌&&◌, ◌||◌, not}
pub use mathlib.Core.Option.{Option, none, some}
pub use mathlib.Core.List.{List, [], ◌∷◌, ◌++◌, map, reverse}
pub use native.Mathlib.Omega.{arith}
