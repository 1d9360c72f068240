-- ===== src/Common/Text.antt =====
-- Texts put together, and numbers printed in decimal.
use Prim.Native.Nat.{ℕ, zero, suc, ◌/◌, ◌%◌, ◌+◌}
use Prim.Native.String.{String, ◌++◌}
use mathlib.Core.Bool.{true, false}
use mathlib.Core.List.{List, [], ◌∷◌}
use test_frerfhrebfd.Common.Tests.{ltb, if◌then◌else◌, ◌==◌}

-- `'…{}…'.format(…)`: the pieces in their order
unfoldable pub format : List String → String
format [] = ""
format (s ∷ parts) = s ++ format parts

digit : ℕ → String
digit n =
    if n == 0
    then "0"
    else if n == 1
    then "1"
    else if n == 2
    then "2"
    else if n == 3
    then "3"
    else if n == 4
    then "4"
    else if n == 5
    then "5"
    else if n == 6
    then "6"
    else if n == 7
    then "7"
    else if n == 8
    then "8"
    else "9"

show_in : ℕ → ℕ → String
show_in zero n = ""
show_in (suc fuel) n = elim (ltb n 10) [
  | true ↦ digit n
  | false ↦ show_in fuel (n / 10) ++ digit (n % 10)
]

-- `str(n)`; a number has at most as many digits as its successor
unfoldable pub show : ℕ → String
unfolding show_in digit
show n = show_in (n + 1) n

-- `sep.join(parts)`
unfoldable pub join : String → List String → String
join sep [] = ""
join sep (s ∷ []) = s
join sep (s ∷ t ∷ parts) = s ++ (sep ++ join sep (t ∷ parts))
