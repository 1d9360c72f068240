-- ===== src/Common.antt =====
-- What the other modules share: library names passed on, Boolean tests, lists and dictionaries.
mod Tests
mod Lists
mod Dict
mod Text
mod Parts
mod TextOrder
mod Ints
mod Paths
mod Shlex
pub use Tests.*
pub use Lists.*
pub use Dict.*
unfoldable pub use Parts.{
  contains, text_after, text_before, starts_with, split_lines, strip, tabs_to_spaces,
}
pub use Parts.{is_in, is_char, is_space, cons_line}
pub use TextOrder.*
pub use Ints.{ℤ, ◌+ℤ◌, int_eq, int_eq_refl, int_eq→≡}
unfoldable pub use Ints.{parse_int}
unfoldable pub use Shlex.{shlex_split}
unfoldable pub use Paths.{join_path, basename, drop}
unfoldable pub use Text.{format, show, join}
pub use Prim.Native.Nat.{ℕ, zero, suc, ◌+◌, ◌-◌, ◌*◌, ◌/◌, ◌≤◌, ◌<◌}
pub use Prim.Native.String.{String}
pub use mathlib.Core.Path.{◌≡◌, refl, sym, ap, ◌∙◌}
pub use mathlib.Core.Logic.{◌≢◌, ◌↔◌, ◌⊎◌, inl, inr}
pub use mathlib.Core.Bool.{Bool, true, false, ◌&&◌, ◌||◌, not}
pub use mathlib.Core.Option.{Option, none, some}
pub use mathlib.Core.List.{List, [], ◌∷◌, ◌++◌, map}
pub use native.Mathlib.Omega.{arith}
pub use text.Mathlib.Text.{◌==◌ as str_eq}
pub use text.Mathlib.TextEquality.{eq_iff}
pub use text.Mathlib.TextPositions.{eq_refl}
