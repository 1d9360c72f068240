-- ===== src/Common/TextOrder.antt =====
-- The order of texts by code points is total and transitive.
use Prim.Native.Nat.{Ordering}
use Prim.Native.String.{String, compare}
use Prim.Native.String.compare
use mathlib.Core.Path.{◌≡◌}
use mathlib.Core.Bool.{Bool, true, false}
use native.Mathlib.Omega.{arith}

-- `s <= t`
abbrev pub text_leb : String → String → Bool
text_leb s t = elim (compare s t) [ Ordering.gt ↦ false | _ ↦ true ]

pub text_leb_total : (s t : String) → text_leb s t ≡ false → text_leb t s ≡ true
text_leb_total String.[] String.[] h = ground (arith, compare.nil-nil)
text_leb_total String.[] (String.◌∷◌ d t) h = ground (arith, compare.nil-cons d t)
text_leb_total (String.◌∷◌ c s) String.[] h = ground (arith, compare.nil-cons c s)
text_leb_total (String.◌∷◌ c s) (String.◌∷◌ d t) h =
    ground (arith, compare.cons-cons c d s t, compare.cons-cons d c t s, text_leb_total s t)

pub text_leb_trans :
    (s t u : String) → text_leb s t ≡ true → text_leb t u ≡ true → text_leb s u ≡ true
text_leb_trans String.[] t String.[] h k = ground (arith, compare.nil-nil)
text_leb_trans String.[] t (String.◌∷◌ e u) h k = ground (arith, compare.nil-cons e u)
text_leb_trans (String.◌∷◌ c s) String.[] u h k = ground (arith, compare.cons-nil c s)
text_leb_trans (String.◌∷◌ c s) (String.◌∷◌ d t) String.[] h k =
    ground (arith, compare.cons-nil d t)
text_leb_trans (String.◌∷◌ c s) (String.◌∷◌ d t) (String.◌∷◌ e u) h k = ground (
  arith,
  compare.cons-cons c d s t,
  compare.cons-cons d e t u,
  compare.cons-cons c e s u,
  text_leb_trans s t u,
)
