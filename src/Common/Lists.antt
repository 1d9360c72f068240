-- ===== src/Common/Lists.antt =====
-- Lists measured and indexed by native numbers, and predicates on lists.
use Prim.Native.Nat.{ℕ, suc, ◌+◌}
use mathlib.Core.Path.{◌≡◌, refl}
use mathlib.Core.Bool.{Bool, true, false}
use mathlib.Core.Logic.{◌⊎◌, inl, inr}
use mathlib.Core.List.{List, [], ◌∷◌, ◌++◌}
use mathlib.Core.Option.{Option, none, some}
use native.Mathlib.Omega.{arith}
use test_frerfhrebfd.Common.Tests.{if◌then◌else◌}

module _ {ℓ} {A : Type ℓ} where
  abbrev pub length : List A → ℕ
  length [] = 0
  length (x ∷ xs) = suc (length xs)

  -- `l[-1]`, and nothing of an empty list
  abbrev pub get_last? : List A → Option A
  get_last? [] = none
  get_last? (x ∷ []) = some x
  get_last? (x ∷ y ∷ xs) = get_last? (y ∷ xs)

  -- `[x for x in l if p(x)]`
  abbrev pub keep : (A → Bool) → List A → List A
  keep p [] = []
  keep p (x ∷ xs) = let rest = keep p xs in if p x then x ∷ rest else rest

  pub length-append : (xs ys : List A) → length (xs ++ ys) ≡ length xs + length ys
  length-append [] ys = omega arith
  length-append (x ∷ xs) ys = omega (arith, length-append xs ys)

  pub get_last?-append : (xs : List A) (x : A) → get_last? (xs ++ x ∷ []) ≡ some x
  get_last?-append [] x = refl
  get_last?-append (y ∷ []) x = refl
  get_last?-append (y ∷ z ∷ xs) x = get_last?-append (z ∷ xs) x

module _ {ℓ κ} {A : Type ℓ} where
  -- A predicate by recursion computes to tuples.
  abbrev pub All : (A → Type κ) → List A → Type κ
  All P [] = Unit
  All P (x ∷ xs) = P x × All P xs

module _ {ℓ κ} {A : Type ℓ} (P : A → Type κ) where
  pub All-append : (xs ys : List A) → All P xs → All P ys → All P (xs ++ ys)
  All-append [] ys hx hy = hy
  All-append (x ∷ xs) ys hx hy = (hx.0, All-append xs ys hx.1 hy)

module _ {A : Type 0} (P : A → Type 0) (p : A → Bool) where
  keep_cons :
      (b : Bool) (x : A) (xs : List A)
      → (b ≡ true → P x)
      → All P xs
      → All P (if b then x ∷ xs else xs)
  keep_cons true x xs h k = (h refl, k)
  keep_cons false x xs h k = k

  pub All-keep : (xs : List A) → All P xs → All P (keep p xs)
  All-keep [] h = tt
  All-keep (x ∷ xs) h = keep_cons (p x) x (keep p xs) (λ _. h.0) (All-keep xs h.1)

  uncons_keep :
      (b : Bool) (x : A) (xs : List A)
      → All P (if b then x ∷ xs else xs)
      → (b ≡ true → P x) × All P xs
  uncons_keep true x xs h = (λ _. h.0, h.1)
  uncons_keep false x xs h = (λ e. absurd (ground arith), h)

  -- What holds of all that is kept holds of every item that passes the test.
  pub All-of_keep : (xs : List A) → All P (keep p xs) → All (λ x. p x ≡ true → P x) xs
  All-of_keep [] h = tt
  All-of_keep (x ∷ xs) h = let k = uncons_keep (p x) x (keep p xs) h in (k.0, All-of_keep xs k.1)

pub All-keep-true : {A : Type 0} (p : A → Bool) (xs : List A) → All (λ x. p x ≡ true) (keep p xs)
All-keep-true p [] = tt
All-keep-true p (x ∷ xs) =
    keep_cons (λ y. p y ≡ true) p (p x) x (keep p xs) (λ e. e) (All-keep-true p xs)

pub All-zip :
    {A : Type 0} (P Q R : A → Type 0)
    → ((x : A) → P x → Q x → R x)
    → (xs : List A) → All P xs
    → All Q xs
    → All R xs
All-zip P Q R f [] h k = tt
All-zip P Q R f (x ∷ xs) h k = (f x h.0 k.0, All-zip P Q R f xs h.1 k.1)

module _ {A : Type 0} where
  -- Some item of the list has the property.
  abbrev pub Some : (A → Type 0) → List A → Type 0
  Some P [] = ⊥
  Some P (x ∷ xs) = P x ⊎ Some P xs

  abbrev pub Among : List A → A → Type 0
  Among xs x = Some (λ y. y ≡ x) xs

  All-Among : (xs ys : List A) → ((x : A) → Among ys x → Among xs x) → All (Among xs) ys
  All-Among xs [] h = tt
  All-Among xs (y ∷ ys) h = (h y (inl refl), All-Among xs ys (λ x m. h x (inr m)))

  pub All-Among_self : (xs : List A) → All (Among xs) xs
  All-Among_self xs = All-Among xs xs (λ x m. m)

  pub Some-keep :
      (P : A → Type 0) (p : A → Bool)
      → ((x : A) → P x → p x ≡ true)
      → (xs : List A) → Some P xs
      → Some P (keep p xs)
  Some-keep P p f [] s = s
  Some-keep P p f (x ∷ xs) (inl h) = rw (f x h) (inl h)
  Some-keep P p f (x ∷ xs) (inr s) = some_keep_cons (p x) (Some-keep P p f xs s)
    where
      some_keep_cons :
          (b : Bool) → Some P (keep p xs) → Some P (if b then x ∷ keep p xs else keep p xs)
      some_keep_cons true k = inr k
      some_keep_cons false k = k

pub All-imp :
    {A : Type 0} (P Q : A → Type 0) → ((x : A) → P x → Q x) → (xs : List A) → All P xs → All Q xs
All-imp P Q f [] h = tt
All-imp P Q f (x ∷ xs) h = (f x h.0, All-imp P Q f xs h.1)
