-- ===== src/Hardware/Sorting.antt =====
-- Python's `sorted`, by a comparison that says which of two items may stand first.
use mathlib.Core.List.{Perm}
use mathlib.Core.List.Perm
use test_frerfhrebfd.Common.{
  ◌≡◌, Bool, true, false, List, [], ◌∷◌, if◌then◌else◌, All, keep, Bool-cases, inl, inr,
}

module _ {A : Type 0} (may_precede : A → A → Bool) where
  insert_sorted : A → List A → List A
  insert_sorted x [] = x ∷ []
  insert_sorted x (y ∷ ys) = if may_precede x y then x ∷ y ∷ ys else y ∷ insert_sorted x ys

  -- Stable: of two items that may stand either way, the first stays first.
  unfoldable pub sorted : List A → List A
  unfolding insert_sorted
  sorted [] = []
  sorted (x ∷ xs) = insert_sorted x (sorted xs)

  abbrev Perm-of : (b : Bool) (x y : A) (ys zs : List A) → Type 0
  Perm-of b x y ys zs = Perm (if b then x ∷ y ∷ ys else y ∷ zs) (x ∷ y ∷ ys)

  insert_split : (b : Bool) (x y : A) (ys zs : List A) → Perm zs (x ∷ ys) → Perm-of b x y ys zs
  insert_split true x y ys zs p = Perm.refl (x ∷ y ∷ ys)
  insert_split false x y ys zs p = Perm.trans (Perm.cons y p) (Perm.swap x y ys)

  insert_sorted-perm : (x : A) (l : List A) → Perm (insert_sorted x l) (x ∷ l)
  unfolding insert_sorted
  insert_sorted-perm x [] = Perm.refl (x ∷ [])
  insert_sorted-perm x (y ∷ ys) =
      insert_split (may_precede x y) x y ys (insert_sorted x ys) (insert_sorted-perm x ys)

  pub sorted-perm : (l : List A) → Perm (sorted l) l
  unfolding sorted
  sorted-perm [] = Perm.refl []
  sorted-perm (x ∷ xs) =
      Perm.trans (insert_sorted-perm x (sorted xs)) (Perm.cons x (sorted-perm xs))

  -- Each item may stand before every later one.
  abbrev pub IsSorted : List A → Type 0
  IsSorted [] = Unit
  IsSorted (x ∷ xs) = All (λ y. may_precede x y ≡ true) xs × IsSorted xs

  module _ (P : A → Type 0) where
    All-insert_sorted : (x : A) (l : List A) → P x → All P l → All P (insert_sorted x l)
    unfolding insert_sorted
    All-insert_sorted x [] p h = (p, tt)
    All-insert_sorted x (y ∷ ys) p h = elim (Bool-cases (may_precede x y)) [
      | inl e ↦ rw e (p, h)
      | inr e ↦ rw e (h.0, All-insert_sorted x ys p h.1)
    ]

    pub All-sorted : (l : List A) → All P l → All P (sorted l)
    unfolding sorted
    All-sorted [] h = h
    All-sorted (x ∷ xs) h = All-insert_sorted x (sorted xs) h.0 (All-sorted xs h.1)

module _ {A : Type 0} (may_precede : A → A → Bool)
    (total : (x y : A) → may_precede x y ≡ false → may_precede y x ≡ true)
    (trans : (x y z : A)
      → may_precede x y ≡ true
      → may_precede y z ≡ true
      → may_precede x z ≡ true) where
  All-trans :
      (x y : A) (l : List A)
      → may_precede x y ≡ true
      → All (λ z. may_precede y z ≡ true) l
      → All (λ z. may_precede x z ≡ true) l
  All-trans x y [] e h = tt
  All-trans x y (z ∷ l) e h = (trans x y z e h.0, All-trans x y l e h.1)

  insert_sorted-IsSorted :
      (x : A) (l : List A)
      → IsSorted may_precede l
      → IsSorted may_precede (insert_sorted may_precede x l)
  unfolding insert_sorted
  insert_sorted-IsSorted x [] h = (tt, tt)
  insert_sorted-IsSorted x (y ∷ ys) h = elim (Bool-cases (may_precede x y)) [
    | inl e ↦ rw e ((e, All-trans x y ys e h.0), h)
    | inr e ↦ rw e (
      All-insert_sorted may_precede (λ z. may_precede y z ≡ true) x ys (total x y e) h.0,
      insert_sorted-IsSorted x ys h.1,
    )
  ]

  pub sorted-IsSorted : (l : List A) → IsSorted may_precede (sorted may_precede l)
  unfolding sorted
  sorted-IsSorted [] = tt
  sorted-IsSorted (x ∷ xs) = insert_sorted-IsSorted x (sorted may_precede xs) (sorted-IsSorted xs)

module _ {A : Type 0} (p : A → Bool) where
  -- Perm of the kept items, the tests on two heads taken as values
  keep_swap :
      (a b : Bool) (x y : A) (zs kept : List A)
      → Perm zs (if a then x ∷ kept else kept)
      → Perm
          (if b then y ∷ zs else zs)
          (if a then x ∷ (if b then y ∷ kept else kept) else if b then y ∷ kept else kept)
  keep_swap true true x y zs kept h = Perm.trans (Perm.cons y h) (Perm.swap x y kept)
  keep_swap true false x y zs kept h = h
  keep_swap false true x y zs kept h = Perm.cons y h
  keep_swap false false x y zs kept h = h

  keep_cons :
      (b : Bool) (x : A) (xs ys : List A)
      → Perm xs ys
      → Perm (if b then x ∷ xs else xs) (if b then x ∷ ys else ys)
  keep_cons true x xs ys h = Perm.cons x h
  keep_cons false x xs ys h = h

module _ {A : Type 0} (may_precede : A → A → Bool) (p : A → Bool) where
  keep-insert_sorted-perm :
      (x : A) (l : List A) → Perm (keep p (insert_sorted may_precede x l)) (keep p (x ∷ l))
  unfolding insert_sorted
  keep-insert_sorted-perm x [] = Perm.refl (keep p (x ∷ []))
  keep-insert_sorted-perm x (y ∷ ys) = elim (Bool-cases (may_precede x y)) [
    | inl e ↦ rw e (Perm.refl (keep p (x ∷ y ∷ ys)))
    | inr e ↦ rw e (
        keep_swap p (p x) (p y) x y (keep p (insert_sorted may_precede x ys)) (keep p ys)
          (keep-insert_sorted-perm x ys))
  ]

  pub keep-sorted-perm : (l : List A) → Perm (keep p (sorted may_precede l)) (keep p l)
  unfolding sorted
  keep-sorted-perm [] = Perm.refl []
  keep-sorted-perm (x ∷ xs) =
      Perm.trans (keep-insert_sorted-perm x (sorted may_precede xs))
        (keep_cons p (p x) x (keep p (sorted may_precede xs)) (keep p xs) (keep-sorted-perm xs))

module _ {A : Type 0} (may_precede : A → A → Bool) (P : A → Type 0) where
  All-of_insert_sorted :
      (x : A) (l : List A) → All P (insert_sorted may_precede x l) → P x × All P l
  unfolding insert_sorted
  All-of_insert_sorted x [] h = h
  All-of_insert_sorted x (y ∷ ys) h = elim (Bool-cases (may_precede x y)) [
    | inl e ↦ rw e at h
    | inr e ↦
        let k : All P (y ∷ insert_sorted may_precede x ys) = rw e at h in
        let r = All-of_insert_sorted x ys k.1 in (r.0, (k.0, r.1))
  ]

  pub All-of_sorted : (l : List A) → All P (sorted may_precede l) → All P l
  unfolding sorted
  All-of_sorted [] h = h
  All-of_sorted (x ∷ xs) h =
      let k = All-of_insert_sorted x (sorted may_precede xs) h in (k.0, All-of_sorted xs k.1)
