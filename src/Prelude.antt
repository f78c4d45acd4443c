-- ===== src/Prelude.antt =====
-- The names that the modules share: the libraries', passed on, and those of the children.
mod Tests
mod Lists
mod Words
mod Chunks
mod Utf8
mod Chains
mod Texts
pub use Tests.*
pub use Lists.*
pub use Words.*
pub use Utf8.{utf8_char, as_bytes}
unfoldable pub use Utf8.{is_utf8, from_utf8}
pub use Chains.*
unfoldable pub use Texts.{
  same, is_whitespace, trim_start, trim_end, trim, starts_with, contains, words_from,
  split_whitespace, join, text_len, slice_to, digits, to_string,
}
pub use Texts.{
  Text, chars, value_of, value_of-to_string, same_refl, same→≡, trim_text, starts_with-append,
}
unfoldable pub use Chunks.{chunks_from, chunks}
pub use Chunks.{joined, joined-chunks, chunks_bounded}
pub use Prim.Native.Nat.{ℕ, zero, suc, ◌+◌, ◌-◌, ◌*◌, ◌/◌, ◌%◌, ◌^◌, ◌≤◌, ◌<◌, min}
pub use mathlib.Core.Path.{◌≡◌, refl, sym, ap, ap₂, subst, ◌∙◌}
pub use mathlib.Core.Logic.{◌≢◌, ◌↔◌, ◌⊎◌, inl, inr}
pub use mathlib.Core.Bool.{Bool, true, false, not, ◌&&◌, ◌||◌}
pub use mathlib.Core.Option.{Option, none, some}
pub use mathlib.Core.List.{List, [], ◌∷◌, ◌++◌, map, append-nil, append_assoc}
pub use native.Mathlib.Omega.{arith}
