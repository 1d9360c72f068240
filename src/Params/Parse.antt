-- ===== src/Params/Parse.antt =====
-- utils.py: key=value pairs separated by white space, as `str.split` knows it, and parts of paths.
use test_frerfhrebfd.Common.{
  String, Bool, Option, none, some, List, [], ◌∷◌, str_eq, insert, keep, not, text_before,
  text_after, is_char, is_space, cons_line, if◌then◌else◌,
}
use test_frerfhrebfd.Errors.Hierarchy.{ErrorClass}
use test_frerfhrebfd.Errors.Build.{foreign_error}
use test_frerfhrebfd.Exec.{Result, ok, err}

abbrev pub Params : Type 0
Params = List (String × String)

-- The pieces between single characters of white space, the empty ones too.
unfoldable pub pieces : String → List String
pieces String.[] = "" ∷ []
pieces (String.◌∷◌ c s) = let rest = pieces s in if is_space c then "" ∷ rest else cons_line c rest

abbrev pub is_word : String → Bool
is_word s = not (str_eq s "")

-- `s.split()`
unfoldable pub words : String → List String
unfolding pieces
words s = keep is_word (pieces s)

-- `k, v = option.split('=', 1)`, and nothing for an option without '='
unfoldable pub set_option : String → Option String → Params → Params
set_option option none params = params
set_option option (some v) params = insert (text_before "=" option) v params

unfoldable pub read_options : List String → Params → Params
unfolding set_option
read_options [] params = params
read_options (option ∷ options) params =
    read_options options (set_option option (text_after "=" option) params)

-- The dictionary that a text of key=value pairs represents.
unfoldable pub read_params : String → Params
unfolding words read_options
read_params cmdline = read_options (words cmdline) []

-- `path.split('/')`
unfoldable pub slash_parts : String → List String
slash_parts String.[] = "" ∷ []
slash_parts (String.◌∷◌ c s) =
    let rest = slash_parts s in if is_char "/" c then "" ∷ rest else cons_line c rest

-- `parts[4]`
unfoldable pub fifth : List String → Result (Option String)
fifth (a ∷ b ∷ c ∷ d ∷ part ∷ parts) = ok (some part)
fifth _ = err (foreign_error ErrorClass.index_error "list index out of range")
