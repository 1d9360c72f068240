-- ===== src/Common/Shlex.antt =====
-- `shlex.split` of Python: words between white space, with quotes and backslashes.
use Prim.Native.Char.{Char}
use Prim.Native.String.{String, ◌++◌}
use mathlib.Core.Bool.{Bool, true, false, ◌||◌}
use mathlib.Core.List.{List, [], ◌∷◌}
use mathlib.Core.Option.{Option, none, some}
use test_frerfhrebfd.Common.Tests.{if◌then◌else◌}
use test_frerfhrebfd.Common.Parts.{is_char}

-- Where the reader is: between words, in a word, in quotes, or after a backslash in one of these.
pub data Place : Type 0 where
  between word single double escaped escaped_in_double : Place

-- `shlex.whitespace`
abbrev is_blank : Char → Bool
is_blank c = is_char " " c || is_char "\t" c || is_char "\n" c || is_char "\r" c

abbrev add_word : String → Option (List String) → Option (List String)
add_word token none = none
add_word token (some words) = some (token ∷ words)

abbrev snoc : String → Char → String
snoc token c = token ++ String.◌∷◌ c ""

-- The place and the token after a character; white space that ends a word is handled before.
place_after : Place → Char → Place
place_after between c =
    if is_blank c
    then between
    else if is_char "\\" c
    then escaped
    else if is_char "\"" c
    then double
    else if is_char "'" c
    then single
    else word
place_after word c =
    if is_char "\\" c
    then escaped
    else if is_char "\"" c
    then double
    else if is_char "'" c
    then single
    else word
place_after single c = if is_char "'" c then word else single
place_after double c =
    if is_char "\"" c then word else if is_char "\\" c then escaped_in_double else double
place_after escaped c = word
place_after escaped_in_double c = double

abbrev is_mark : Char → Bool
is_mark c = is_char "\\" c || is_char "\"" c || is_char "'" c

token_after : Place → String → Char → String
token_after between token c = if is_blank c || is_mark c then token else snoc token c
token_after word token c = if is_mark c then token else snoc token c
token_after single token c = if is_char "'" c then token else snoc token c
token_after double token c = if is_char "\"" c || is_char "\\" c then token else snoc token c
token_after escaped token c = snoc token c
token_after escaped_in_double token c =
    if is_char "\\" c || is_char "\"" c then snoc token c else snoc (token ++ "\\") c

ends_word : Place → Char → Bool
ends_word word c = is_blank c
ends_word _ c = false

-- Nothing where a quotation is not closed or nothing is escaped: a ValueError.
split_from : Place → String → String → Option (List String)
unfolding place_after token_after ends_word
split_from between token String.[] = some []
split_from word token String.[] = some (token ∷ [])
split_from _ token String.[] = none
split_from place token (String.◌∷◌ c s) = elim (ends_word place c) [
  | true ↦ add_word token (split_from between "" s)
  | false ↦ split_from (place_after place c) (token_after place token c) s
]

-- `shlex.split(s)`
unfoldable pub shlex_split : String → Option (List String)
unfolding split_from
shlex_split s = split_from between "" s
