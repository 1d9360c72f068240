-- ===== src/Dmi.antt =====
-- dmi_inspector.py: a block of dmidecode's output and its type (here), what is made of all blocks
-- (Parse), and `collect_dmidecode_info` (Collected). A line ends with "\n" here.
pub mod Parse
pub mod Collected
use Prim.Native.String.{◌++◌ as join_texts}
use test_frerfhrebfd.Common.{
  ℕ, String, Bool, true, false, Option, none, some, List, [], ◌∷◌, ◌++◌, not, ◌&&◌, str_eq, ℤ, get,
  insert, contains, text_after, text_before, starts_with, split_lines, strip, is_char, cons_line,
  drop, parse_int, if◌then◌else◌,
}
use test_frerfhrebfd.Errors.Hierarchy.{ErrorClass}
use test_frerfhrebfd.Errors.Build.{foreign_error}
use test_frerfhrebfd.Exec.{Result, ok, err}
use test_frerfhrebfd.Exec.Fallible.{◌>>=◌}

-- What a row of a block holds: a text, or the list of the lines below it.
pub data Field : Type 0 where
  text : String → Field
  items : List String → Field

abbrev pub Rows : Type 0
Rows = List (String × Field)

abbrev before_first : String → List String → List String
before_first s [] = s ∷ []
before_first s (l ∷ ls) = join_texts s l ∷ ls

-- Of two flags the first says that a newline is left over, the second that another one follows.
abbrev next_char : Bool → Bool → String → List String → List String
next_char true true s rest = "" ∷ rest
next_char true false s rest = before_first "\n" (before_first s rest)
next_char false true s rest = rest
next_char false false s rest = before_first s rest

split_at_blanks : Bool → String → List String
split_at_blanks true String.[] = "\n" ∷ []
split_at_blanks false String.[] = "" ∷ []
split_at_blanks pending (String.◌∷◌ c s) =
    let rest = split_at_blanks (is_char "\n" c && not pending) s in
    next_char pending (is_char "\n" c) (String.◌∷◌ c "") rest

-- `data.split('\n\n')`
unfoldable pub split_blocks : String → List String
unfolding split_at_blanks
split_blocks output = split_at_blanks false output

without_last_empty : List String → List String
without_last_empty [] = []
without_last_empty (l ∷ []) = if str_eq l "" then [] else l ∷ []
without_last_empty (l ∷ k ∷ ls) = l ∷ without_last_empty (k ∷ ls)

-- `s.splitlines()`
unfoldable pub lines_of : String → List String
unfolding split_lines without_last_empty
lines_of s = without_last_empty (split_lines s)

int_after : Option String → Option ℤ
unfolding text_before strip drop parse_int
int_after none = none
int_after (some rest) = parse_int (drop 8 (strip (text_before "," rest)))

-- `int(infoblock.split(',', 2)[1].strip()[len('DMI type'):])`; nothing where it raises
unfoldable pub block_type : String → Option ℤ
unfolding text_after int_after
block_type infoblock = int_after (text_after "," infoblock)

-- The rows that are read, and the key whose list is still open.
abbrev pub Reading : Type 0
Reading = Rows × Option String

abbrev append_line : String → String → Rows → Option Field → Result Reading
append_line k line rows none = err (foreign_error ErrorClass.key_error k)
append_line k line rows (some (text s)) = err (foreign_error ErrorClass.attribute_error "append")
append_line k line rows (some (items lines)) =
    ok (insert k (items (lines ++ (line ∷ []))) rows, some k)

-- `if list_value: rows[k].append(line)`
abbrev add_item : String → Rows → Option String → Result Reading
add_item line rows none = ok (rows, none)
add_item line rows (some k) = append_line k line rows (get k rows)

abbrev add_row : String → String → Rows → Reading
add_row k v rows =
    if not (str_eq v "") then (insert k (text v) rows, none) else (insert k (items []) rows, some k)

abbrev or_empty : Option String → String
or_empty none = ""
or_empty (some s) = s

-- One line, stripped.
unfoldable pub add_line : String → Rows → Option String → Result Reading
unfolding contains text_before text_after strip
add_line line rows list_key =
    if contains ":" line
    then ok (add_row (strip (text_before ":" line)) (strip (or_empty (text_after ":" line))) rows)
    else if contains "Handle 0x" line
    then ok (insert "Handle" (text line) rows, list_key)
    else add_item line rows list_key

unfoldable pub add_lines : List String → Rows → Option String → Result Reading
unfolding strip add_line
add_lines [] rows list_key = ok (rows, list_key)
add_lines (line ∷ lines) rows list_key =
    add_line (strip line) rows list_key >>= λ (rows', list_key'). add_lines lines rows' list_key'

-- `_parse_handle_block`
unfoldable pub parse_handle_block : String → Result Rows
unfolding lines_of add_lines
parse_handle_block lines = add_lines (lines_of lines) [] none >>= λ (rows, list_key). ok rows
