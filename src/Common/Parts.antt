-- ===== src/Common/Parts.antt =====
-- Parts of texts: prefixes, what stands after a separator, lines, and white space.
use Prim.Native.Char.{Char, code}
use Prim.Native.Nat.{ℕ}
use Prim.Native.String.{String, ◌++◌}
use mathlib.Core.Bool.{Bool, true, false, ◌&&◌, ◌||◌}
use mathlib.Core.List.{List, [], ◌∷◌}
use mathlib.Core.Option.{Option, none, some}
use text.Mathlib.Text.{◌==◌ as str_eq}
use test_frerfhrebfd.Common.Tests.{leb, ◌==◌, if◌then◌else◌}

abbrev pub is_char : String → Char → Bool
is_char s c = str_eq (String.◌∷◌ c "") s

-- The white space of `str.split` and `str.strip`, by its code points.
abbrev is_space_code : ℕ → Bool
is_space_code n =
    (leb 9 n && leb n 13)
    || (leb 28 n && leb n 32)
    || n == 133
    || n == 160
    || n == 5760
    || (leb 8192 n && leb n 8202)
    || n == 8232
    || n == 8233
    || n == 8239
    || n == 8287
    || n == 12288

abbrev pub is_space : Char → Bool
is_space c = is_space_code (code c)

-- What follows a prefix, if the text has it.
unfoldable pub after_prefix : String → String → Option String
after_prefix String.[] s = some s
after_prefix (String.◌∷◌ c prefix) String.[] = none
after_prefix (String.◌∷◌ c prefix) (String.◌∷◌ d s) =
    let rest = after_prefix prefix s in
    if str_eq (String.◌∷◌ c "") (String.◌∷◌ d "") then rest else none

abbrev is_some : Option String → Bool
is_some none = false
is_some (some s) = true

-- `s.startswith(prefix)`
unfoldable pub starts_with : String → String → Bool
unfolding after_prefix
starts_with prefix s = is_some (after_prefix prefix s)

abbrev or_after : Option String → Option String → Option String
or_after none later = later
or_after (some s) later = some s

-- What follows the first place where `sep` stands.
unfoldable pub text_after : String → String → Option String
unfolding after_prefix
text_after sep String.[] = after_prefix sep ""
text_after sep (String.◌∷◌ c s) = or_after (after_prefix sep (String.◌∷◌ c s)) (text_after sep s)

-- `part in s`
unfoldable pub contains : String → String → Bool
unfolding text_after
contains part s = is_some (text_after part s)

-- What stands before the first place where `sep` stands.
unfoldable pub text_before : String → String → String
unfolding starts_with
text_before sep String.[] = ""
text_before sep (String.◌∷◌ c s) =
    let rest = text_before sep s in
    if starts_with sep (String.◌∷◌ c s) then "" else String.◌∷◌ c rest

abbrev pub cons_line : Char → List String → List String
cons_line c [] = String.◌∷◌ c "" ∷ []
cons_line c (l ∷ ls) = String.◌∷◌ c l ∷ ls

-- `s.split('\n')`
unfoldable pub split_lines : String → List String
split_lines String.[] = "" ∷ []
split_lines (String.◌∷◌ c s) =
    let rest = split_lines s in if is_char "\n" c then "" ∷ rest else cons_line c rest

strip_left : String → String
strip_left String.[] = ""
strip_left (String.◌∷◌ c s) = let rest = strip_left s in if is_space c then rest else String.◌∷◌ c s

strip_right : String → String
strip_right String.[] = ""
strip_right (String.◌∷◌ c s) =
    let rest = strip_right s in if is_space c && str_eq rest "" then "" else String.◌∷◌ c rest

-- `s.strip()`
unfoldable pub strip : String → String
unfolding strip_left strip_right
strip s = strip_right (strip_left s)

-- `s.replace('\t', ' ')`
unfoldable pub tabs_to_spaces : String → String
tabs_to_spaces String.[] = ""
tabs_to_spaces (String.◌∷◌ c s) =
    let rest = tabs_to_spaces s in if is_char "\t" c then " " ++ rest else String.◌∷◌ c rest

-- `x in l`
abbrev pub is_in : String → List String → Bool
is_in x [] = false
is_in x (y ∷ l) = if str_eq y x then true else is_in x l
