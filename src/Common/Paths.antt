-- ===== src/Common/Paths.antt =====
-- Paths of files, as os.path puts them together and takes them apart.
use Prim.Native.Nat.{ℕ, zero, suc}
use Prim.Native.String.{String, ◌++◌}
use mathlib.Core.Bool.{Bool, false}
use mathlib.Core.Option.{Option, none, some}
use text.Mathlib.Text.{◌==◌ as str_eq}
use test_frerfhrebfd.Common.Tests.{if◌then◌else◌}
use test_frerfhrebfd.Common.Parts.{starts_with}

ends_in_slash : String → Bool
ends_in_slash String.[] = false
ends_in_slash (String.◌∷◌ c s) =
    let rest = ends_in_slash s in if str_eq s "" then str_eq (String.◌∷◌ c "") "/" else rest

-- `os.path.join(a, b)`
unfoldable pub join_path : String → String → String
unfolding ends_in_slash starts_with
join_path a b =
    if starts_with "/" b
    then b
    else if str_eq a ""
    then b
    else if ends_in_slash a
    then a ++ b
    else a ++ ("/" ++ b)

abbrev or_all : String → Option String → String
or_all s none = s
or_all s (some t) = t

-- What follows the last slash, if there is one.
after_slash : String → Option String
after_slash String.[] = none
after_slash (String.◌∷◌ c s) =
    let rest = after_slash s in if str_eq (String.◌∷◌ c "") "/" then some (or_all s rest) else rest

-- `os.path.basename(path)`
unfoldable pub basename : String → String
unfolding after_slash
basename path = or_all path (after_slash path)

-- `s[n:]`
unfoldable pub drop : ℕ → String → String
drop zero s = s
drop (suc n) String.[] = ""
drop (suc n) (String.◌∷◌ c s) = drop n s
