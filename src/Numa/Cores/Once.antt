-- ===== src/Numa/Cores/Once.antt =====
-- Lists of threads without repetition: built one by one, and described at once.
use test_frerfhrebfd.Common.{
  Bool, true, List, [], ◌∷◌, ◌++◌, ◌&&◌, not, ℤ, int_eq, int_eq→≡, keep, ◌≡◌, refl, sym, ap, ◌∙◌,
  inl, inr, arith, Bool-cases,
}
use mathlib.Core.List.{append-nil}
use test_frerfhrebfd.Numa.Cores.{is_sibling, add_sibling}

-- The first occurrence of each item.
abbrev pub first_once : List ℤ → List ℤ
first_once [] = []
first_once (t ∷ ts) = t ∷ keep (λ x. not (int_eq t x)) (first_once ts)

abbrev pub add_siblings : List ℤ → List ℤ → List ℤ
add_siblings siblings [] = siblings
add_siblings siblings (t ∷ ts) = add_siblings (add_sibling t siblings) ts

module _ {A : Type 0} where
  keep-keep :
      (p q r : A → Bool)
      → ((x : A) → r x ≡ (q x && p x))
      → (xs : List A) → keep p (keep q xs) ≡ keep r xs
  keep-keep p q r h [] = refl
  keep-keep p q r h (x ∷ xs) = elim (Bool-cases (q x)) [
    | inl e ↦ ground (arith, h x, keep-keep p q r h xs)
    | inr e ↦ ground (arith, h x, keep-keep p q r h xs)
  ]

  append_assoc : (xs ys zs : List A) → (xs ++ ys) ++ zs ≡ xs ++ (ys ++ zs)
  append_assoc [] ys zs = refl
  append_assoc (x ∷ xs) ys zs = ap (λ l. x ∷ l) (append_assoc xs ys zs)

is_sibling-append :
    (x t : ℤ) (ts : List ℤ)
    → not (is_sibling x (ts ++ t ∷ [])) ≡ (not (int_eq t x) && not (is_sibling x ts))
is_sibling-append x t [] = ground arith
is_sibling-append x t (y ∷ ts) = ground (arith, is_sibling-append x t ts)

-- What equals a sibling is one.
is_sibling-present :
    (t x : ℤ) (ts : List ℤ)
    → is_sibling t ts ≡ true
    → not (is_sibling x ts) ≡ (not (int_eq t x) && not (is_sibling x ts))
is_sibling-present t x ts h = elim (Bool-cases (int_eq t x)) [
  | inl e ↦ let same : is_sibling x ts ≡ true = rw (← int_eq→≡ t x e) h in rw (same, e) refl
  | inr e ↦ rw e refl
]

pub add_siblings-first_once :
    (siblings ts : List ℤ)
    → add_siblings siblings ts ≡ siblings ++ keep (λ x. not (is_sibling x siblings)) (first_once ts)
unfolding add_sibling
add_siblings-first_once siblings [] = sym (append-nil siblings)
add_siblings-first_once siblings (t ∷ ts) = elim (Bool-cases (is_sibling t siblings)) [
  | inl e ↦
      let step : add_sibling t siblings ≡ siblings = rw e refl in
      ap (λ l. add_siblings l ts) step
      ∙ add_siblings-first_once siblings ts
      ∙ ap (λ l. siblings ++ l)
          (rw
            (
              e,
              keep-keep (λ x. not (is_sibling x siblings)) (λ x. not (int_eq t x)) _
                  (λ x. is_sibling-present t x siblings e) (first_once ts),
            )
            refl)
  | inr e ↦
      let step : add_sibling t siblings ≡ siblings ++ t ∷ [] = rw e refl in
      ap (λ l. add_siblings l ts) step
      ∙ add_siblings-first_once (siblings ++ t ∷ []) ts
      ∙ append_assoc siblings (t ∷ []) _
      ∙ ap (λ l. siblings ++ l)
          (rw
            (
              e,
              keep-keep (λ x. not (is_sibling x siblings)) (λ x. not (int_eq t x)) _
                  (λ x. is_sibling-append x t siblings) (first_once ts),
            )
            refl)
]
