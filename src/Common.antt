-- ===== src/Common.antt =====
-- The names that the other modules share: the libraries', passed on, and those of the children.
mod Tests
mod Lists
mod Int
mod Texts
mod Maps
mod Numbers
mod Floats
pub mod WholeFloats
pub use Tests.*
pub use Lists.*
pub use Maps.{Map, lookup-put, length-put}
unfoldable pub use Maps.{lookup, put, delete}
pub use Texts.{
  Text, codes, Lacks, lower, to_lower, text_eq_iff, text_eq_refl, cut-append, cut-eq_none,
  cut-eq_some,
}
unfoldable pub use Texts.{text_eq, has_prefix, has_suffix, contains, cut, trim_suffix, join}
unfoldable pub use Int.*
pub use Numbers.{
  parse_int-format_int, i64_cutoff, is_digit, padded, parse_int-padded, padded-is_digit,
  padded-length, format_uint-small, format_uint-last, format_uint-head,
}
unfoldable pub use Numbers.{parse_int, parse_uint, format_int, format_uint}
pub use Floats.*
pub use Prim.Native.Nat.{ℕ, zero, suc, ◌+◌, ◌-◌, ◌*◌, ◌/◌, ◌%◌, ◌^◌, ◌≤◌, ◌<◌}
pub use mathlib.Core.Path.{◌≡◌, refl, sym, ap, subst, ◌∙◌}
pub use mathlib.Core.Logic.{◌≢◌, ◌↔◌, ◌⊎◌, inl, inr}
pub use mathlib.Core.Bool.{Bool, true, false, not, ◌&&◌, ◌||◌}
pub use mathlib.Core.Option.{Option, none, some}
pub use mathlib.Core.List.{List, [], ◌∷◌, ◌++◌, map, append-nil, append_assoc}
pub use native.Mathlib.Omega.{arith}
unfoldable pub use native.Mathlib.Decide.{dec_lt}
