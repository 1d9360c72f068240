-- ===== src/Common/Ints.antt =====
-- Python's `int` of a text, with its sign. Underscores between digits are not read.
use Prim.Native.Nat.{ℕ, zero, suc, ◌+◌, ◌-◌, ◌*◌}
use Prim.Native.String.{String}
use mathlib.Core.Path.{◌≡◌}
use mathlib.Core.Bool.{Bool, true, false}
use mathlib.Core.List.{List, [], ◌∷◌}
use mathlib.Core.Option.{Option, none, some}
use native.Mathlib.Omega.{arith}
use text.Mathlib.Text.{◌==◌ as str_eq}
use test_frerfhrebfd.Common.Tests.{if◌then◌else◌, ◌==◌, leb}
use test_frerfhrebfd.Common.Parts.{strip}

pub data ℤ : Type 0 where
  pos : ℕ → ℤ
  -- `negsuc n` is `-(n + 1)`
  negsuc : ℕ → ℤ

abbrev pub int_eq : ℤ → ℤ → Bool
int_eq (pos a) (pos b) = a == b
int_eq (negsuc a) (negsuc b) = a == b
int_eq _ _ = false

pub int_eq_refl : (a : ℤ) → int_eq a a ≡ true
int_eq_refl (pos a) = ground arith
int_eq_refl (negsuc a) = ground arith

pub int_eq→≡ : (a b : ℤ) → int_eq a b ≡ true → a ≡ b
int_eq→≡ (pos a) (pos b) h = ground arith
int_eq→≡ (negsuc a) (negsuc b) h = ground arith
int_eq→≡ (pos a) (negsuc b) h = absurd (ground arith)
int_eq→≡ (negsuc a) (pos b) h = absurd (ground arith)

infixl 20 ◌+ℤ◌
abbrev pub ◌+ℤ◌ : ℤ → ℤ → ℤ
pos a +ℤ pos b = pos (a + b)
pos a +ℤ negsuc b = if leb (suc b) a then pos (a - suc b) else negsuc (b - a)
negsuc a +ℤ pos b = if leb (suc a) b then pos (b - suc a) else negsuc (a - b)
negsuc a +ℤ negsuc b = negsuc (suc (a + b))

digits : List String
digits = "0" ∷ "1" ∷ "2" ∷ "3" ∷ "4" ∷ "5" ∷ "6" ∷ "7" ∷ "8" ∷ "9" ∷ []

position : String → List String → ℕ → Option ℕ
position s [] n = none
position s (d ∷ ds) n = if str_eq s d then some n else position s ds (suc n)

abbrev shifted : ℕ → Option ℕ → Option ℕ
shifted n none = none
shifted n (some d) = some (n * 10 + d)

-- The digits that are left, after those that are read already.
read_digits : Option ℕ → String → Option ℕ
unfolding position digits
read_digits none s = none
read_digits (some n) String.[] = some n
read_digits (some n) (String.◌∷◌ c s) =
    read_digits (shifted n (position (String.◌∷◌ c "") digits 0)) s

read_natural : String → Option ℕ
unfolding read_digits
read_natural s = if str_eq s "" then none else read_digits (some 0) s

abbrev positive : Option ℕ → Option ℤ
positive none = none
positive (some n) = some (pos n)

abbrev negative : Option ℕ → Option ℤ
negative none = none
negative (some zero) = some (pos 0)
negative (some (suc n)) = some (negsuc n)

read_signed : String → Option ℤ
unfolding read_natural
read_signed String.[] = none
read_signed (String.◌∷◌ c s) =
    let sign = String.◌∷◌ c "" in
    if str_eq sign "-"
    then negative (read_natural s)
    else if str_eq sign "+"
    then positive (read_natural s)
    else positive (read_natural (String.◌∷◌ c s))

-- `int(s)`; nothing where it is a ValueError
unfoldable pub parse_int : String → Option ℤ
unfolding read_signed strip
parse_int s = read_signed (strip s)
