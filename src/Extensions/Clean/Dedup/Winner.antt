-- ===== src/Extensions/Clean/Dedup/Winner.antt =====
-- Which of the steps of one name wins.
use test_frerfhrebfd.Common.{
  ℕ, ◌≤◌, ◌<◌, String, ◌≡◌, refl, true, some, List, [], ◌∷◌, ◌⊎◌, inl, inr, arith, All, All-keep,
  All-of_keep, All-keep-true, All-zip, All-imp, ==_iff, Some, Among, All-Among_self, Some-keep,
  ◌==◌, leb, text_leb, text_leb_total, text_leb_trans, Bool-cases,
}
use test_frerfhrebfd.Hardware.Sorting.{sorted, IsSorted, sorted-IsSorted, All-sorted, All-of_sorted}
use test_frerfhrebfd.Extensions.Clean.Dedup.{
  Candidate, max_key, at_max, support_of, priority_of, name_order, first, winning_step,
}

-- `w` stands no later than `x`: by the support of its manager, then by its priority, then by the
-- name of its manager.
abbrev pub Outranks : Candidate → Candidate → Type 0
Outranks w x =
    (x.support < w.support)
    ⊎ ((x.support ≡ w.support)
        × ((x.step.priority < w.step.priority)
            ⊎ ((x.step.priority ≡ w.step.priority) × (text_leb w.manager x.manager ≡ true))))

module _ (key : Candidate → ℕ) where
  max_key-bound : (n : ℕ) (cs : List Candidate) → max_key key cs ≤ n → All (λ c. key c ≤ n) cs
  unfolding max_key
  max_key-bound n [] h = tt
  max_key-bound n (c ∷ cs) h = (ground arith, max_key-bound n cs (ground arith))

  max_key-met :
      (n : ℕ) (c : Candidate) (cs : List Candidate)
      → max_key key (c ∷ cs) ≡ n
      → Some (λ x. key x ≡ n) (c ∷ cs)
  unfolding max_key
  max_key-met n c [] h = inl (ground arith)
  max_key-met n c (d ∷ cs) h = elim (Bool-cases (leb (max_key key (d ∷ cs)) (key c))) [
    | inl e ↦ inl (ground arith)
    | inr e ↦ inr (max_key-met n d cs (ground arith))
  ]

  -- What is left at the greatest key has that key.
  at_max-key : (cs : List Candidate) → All (λ x. key x ≡ max_key key cs) (at_max key cs)
  unfolding at_max
  at_max-key cs =
      All-imp (λ x. (key x == max_key key cs) ≡ true) (λ x. key x ≡ max_key key cs)
        (λ x h. ground arith) (at_max key cs) (All-keep-true (λ x. key x == max_key key cs) cs)

  -- What is dropped has a smaller one.
  at_max-All :
      (P : Candidate → Type 0) (cs : List Candidate)
      → All P (at_max key cs)
      → All (λ x. (key x < max_key key cs) ⊎ ((key x ≡ max_key key cs) × P x)) cs
  unfolding at_max
  at_max-All P cs h =
      All-zip (λ x. (key x == max_key key cs) ≡ true → P x) (λ x. key x ≤ max_key key cs)
        (λ x. (key x < max_key key cs) ⊎ ((key x ≡ max_key key cs) × P x))
        (λ x k b. elim (Bool-cases (key x == max_key key cs)) [
          | inl e ↦ inr (ground arith, k e)
          | inr e ↦ inl (ground arith)
        ])
        cs (All-of_keep P (λ x. key x == max_key key cs) cs h)
        (max_key-bound (max_key key cs) cs (omega arith))

  at_max-Some :
      (c : Candidate) (cs : List Candidate)
      → Some (λ x. key x ≡ max_key key (c ∷ cs)) (at_max key (c ∷ cs))
  unfolding at_max
  at_max-Some c cs =
      Some-keep (λ x. key x ≡ max_key key (c ∷ cs)) (λ x. key x == max_key key (c ∷ cs))
        (λ x h. (==_iff _ _).1 h) (c ∷ cs) (max_key-met (max_key key (c ∷ cs)) c cs refl)

text_leb_refl : (s : String) → text_leb s s ≡ true
text_leb_refl s = ground (arith, text_leb_total s s)

not-Some : (P : Candidate → Type 0) (l : List Candidate) → All (λ x. ⊥) l → Some P l → ⊥
not-Some P [] h s = s
not-Some P (c ∷ l) h s = h.0

module _ (Q : Candidate → Type 0) where
  -- The first of a sorted list stands no later than any of it.
  first_of_sorted :
      (m : List Candidate)
      → (m ≡ [] → ⊥)
      → IsSorted name_order m
      → All Q m
      → (w : Candidate) × (first m ≡ some w)
        × Q w
        × All (λ x. text_leb w.manager x.manager ≡ true) m
  first_of_sorted [] n s h = absurd (n refl)
  first_of_sorted (c ∷ m) n s h = (c, refl, h.0, (text_leb_refl c.manager, s.0))

  -- The least by name of a list that is not empty.
  first-sorted :
      (P : Candidate → Type 0) (l : List Candidate)
      → Some P l
      → All Q l
      → (w : Candidate) × (first (sorted name_order l) ≡ some w)
        × Q w
        × All (λ x. text_leb w.manager x.manager ≡ true) l
  first-sorted P l s h =
      let (w, e, q, least) =
        first_of_sorted (sorted name_order l)
          (λ z. not-Some P l (All-of_sorted name_order (λ x. ⊥) l (rw z tt)) s)
          (sorted-IsSorted name_order (λ x y. text_leb_total x.manager y.manager)
            (λ x y z. text_leb_trans x.manager y.manager z.manager) l)
          (All-sorted name_order Q l h) in
      (w, e, q, All-of_sorted name_order (λ x. text_leb w.manager x.manager ≡ true) l least)

Some-at_max :
    (key : Candidate → ℕ) (P : Candidate → Type 0) (l : List Candidate)
    → Some P l
    → Some (λ x. key x ≡ max_key key l) (at_max key l)
Some-at_max key P [] s = absurd s
Some-at_max key P (c ∷ l) s = at_max-Some key c l

All-at_max :
    (key : Candidate → ℕ) (P : Candidate → Type 0) (l : List Candidate)
    → All P l
    → All P (at_max key l)
unfolding at_max
All-at_max key P l h = All-keep P (λ x. key x == max_key key l) l h

-- What is left after both maxima, and how the winner among it stands to all.
abbrev IsLeft : List Candidate → ℕ → ℕ → Candidate → Type 0
IsLeft l level top x = Among l x × (x.support ≡ level) × (x.step.priority ≡ top)

abbrev Ranked : ℕ → ℕ → Candidate → Candidate → Type 0
Ranked level top w x =
    (x.support < level)
    ⊎ ((x.support ≡ level)
        × ((x.step.priority < top)
            ⊎ ((x.step.priority ≡ top) × (text_leb w.manager x.manager ≡ true))))

Ranked-Outranks :
    (level top : ℕ) (w x : Candidate)
    → w.support ≡ level
    → w.step.priority ≡ top
    → Ranked level top w x
    → Outranks w x
Ranked-Outranks level top w x s p r = rw (s, p) r

module _ (l : List Candidate) where
  abbrev supported : List Candidate
  supported = at_max support_of l

  abbrev level : ℕ
  level = max_key support_of l

  abbrev top : ℕ
  top = max_key priority_of supported

  All-IsLeft : All (IsLeft l level top) (at_max priority_of supported)
  All-IsLeft =
      All-zip (λ x. Among l x × (x.support ≡ level)) (λ x. x.step.priority ≡ top)
        (IsLeft l level top) (λ x h k. (h.0, h.1, k)) (at_max priority_of supported)
        (All-at_max priority_of (λ x. Among l x × (x.support ≡ level)) supported
          (All-zip (Among l) (λ x. x.support ≡ level) (λ x. Among l x × (x.support ≡ level))
            (λ x h k. (h, k)) supported (All-at_max support_of (Among l) l (All-Among_self l))
            (at_max-key support_of l)))
        (at_max-key priority_of supported)

  All-Ranked :
      (w : Candidate)
      → All (λ x. text_leb w.manager x.manager ≡ true) (at_max priority_of supported)
      → All (Ranked level top w) l
  All-Ranked w h =
      at_max-All support_of
        (λ x.
          (x.step.priority < top)
          ⊎ ((x.step.priority ≡ top) × (text_leb w.manager x.manager ≡ true)))
        l (at_max-All priority_of (λ x. text_leb w.manager x.manager ≡ true) supported h)

-- The winner of a list that is not empty is one of its items and stands before all the others:
-- greatest support of the manager, then greatest priority, then least name of the manager.
pub winning_step-Outranks :
    (c : Candidate) (cs : List Candidate)
    → (w : Candidate) × (winning_step (c ∷ cs) ≡ some w)
      × Among (c ∷ cs) w
      × All (Outranks w) (c ∷ cs)
unfolding winning_step
winning_step-Outranks c cs =
    let l = c ∷ cs in
    let (w, e, left, least) =
      first-sorted (IsLeft l (level l) (top l)) (λ x. priority_of x ≡ top l)
        (at_max priority_of (supported l))
        (Some-at_max priority_of (λ x. support_of x ≡ level l) (supported l)
          (at_max-Some support_of c cs))
        (All-IsLeft l) in
    (
      w,
      e,
      left.0,
      All-imp (Ranked (level l) (top l) w) (Outranks w)
          (λ x. Ranked-Outranks (level l) (top l) w x left.1 left.2) l (All-Ranked l w least),
    )
