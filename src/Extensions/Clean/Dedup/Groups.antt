-- ===== src/Extensions/Clean/Dedup/Groups.antt =====
-- The groups of `_deduplicate_steps`: under each name, the supported steps of that name in the
-- order of the dictionary, each name once.
use mathlib.Core.List.{append_assoc, append-nil}
use test_frerfhrebfd.Common.{
  ℕ, ◌+◌, ◌≤◌, String, ◌≡◌, ◌≢◌, refl, sym, ap, ◌∙◌, Option, none, some, List, [], ◌∷◌, ◌++◌, arith,
  All, All-append, keep, get, ◌==◌, str_eq, eq_iff, Bool-cases, inl, inr, if◌then◌else◌,
}
use test_frerfhrebfd.Hardware.Types.{CleanStep}
use test_frerfhrebfd.Extensions.Clean.Dedup.{
  Candidate, append_to, add_steps, add_supported, group_steps,
}

-- Every step of every manager whose support is known, in order.
abbrev of_manager : Option ℕ → String → List CleanStep → List Candidate
of_manager none manager steps = []
of_manager (some level) manager [] = []
of_manager (some level) manager (s ∷ steps) =
    record { step = s; manager = manager; support = level } ∷ of_manager (some level) manager steps

abbrev pub candidates_of : List (String × ℕ) → List (String × List CleanStep) → List Candidate
candidates_of support [] = []
candidates_of support ((manager, steps) ∷ rest) =
    of_manager (get manager support) manager steps ++ candidates_of support rest

abbrev pub named : String → List Candidate → List Candidate
named n cs = keep (λ c. str_eq c.step.step n) cs

-- the group under a name, empty if there is none
abbrev pub items : String → List (String × List Candidate) → List Candidate
items n [] = []
items n ((k, l) ∷ groups) = if str_eq k n then l else items n groups

abbrev pub key_count : String → List (String × List Candidate) → ℕ
key_count n [] = 0
key_count n ((k, l) ∷ groups) = if str_eq k n then 1 + key_count n groups else key_count n groups

-- No group is empty, and all in it have the group's name.
abbrev pub IsGrouped : List (String × List Candidate) → Type 0
IsGrouped [] = Unit
IsGrouped ((k, l) ∷ groups) = (l ≢ []) × All (λ c. c.step.step ≡ k) l × IsGrouped groups

module _ (n : String) (c : Candidate) where
  items-append_to :
      (k : String) (groups : List (String × List Candidate))
      → items n (append_to k c groups)
        ≡ (if str_eq k n then items n groups ++ c ∷ [] else items n groups)
  unfolding append_to
  items-append_to k [] = refl
  items-append_to k ((j, l) ∷ groups) =
      ground (arith, eq_iff j k, eq_iff j n, eq_iff k n, items-append_to k groups)

  key_count-append_to :
      (k : String) (groups : List (String × List Candidate))
      → key_count n (append_to k c groups) ≡ (
          if str_eq k n
          then (if key_count n groups == 0 then 1 else key_count n groups)
          else key_count n groups)
  unfolding append_to
  key_count-append_to k [] = refl
  key_count-append_to k ((j, l) ∷ groups) =
      ground (arith, eq_iff j k, eq_iff j n, eq_iff k n, key_count-append_to k groups)

append-ne-nil : (l : List Candidate) (c : Candidate) → l ++ c ∷ [] ≢ []
append-ne-nil [] c = ground arith
append-ne-nil (d ∷ l) c = ground arith

IsGrouped-append_to :
    (c : Candidate) (groups : List (String × List Candidate))
    → IsGrouped groups
    → IsGrouped (append_to c.step.step c groups)
unfolding append_to
IsGrouped-append_to c [] h = (ground arith, (refl, tt), tt)
IsGrouped-append_to c ((j, l) ∷ groups) h = elim (Bool-cases (str_eq j c.step.step)) [
  | inl e ↦ rw e (
    append-ne-nil l c,
    All-append (λ d. d.step.step ≡ j) l (c ∷ []) h.1 (ground (arith, eq_iff j c.step.step), tt),
    h.2,
  )
  | inr e ↦ rw e (h.0, h.1, IsGrouped-append_to c groups h.2)
]

-- What the groups have in common at every stage, for the name `n`.
pub record Good (n : String) (groups : List (String × List Candidate)) : Type 0 where
  pub grouped : IsGrouped groups
  pub single : key_count n groups ≤ 1

Good-append_to :
    (n : String) (c : Candidate) (groups : List (String × List Candidate))
    → Good n groups
    → Good n (append_to c.step.step c groups)
Good-append_to n c groups g = record {
  grouped = IsGrouped-append_to c groups g.grouped;
  single = let s = g.single in ground (arith, key_count-append_to n c c.step.step groups);
}

module _ (n : String) where
  named_cons :
      (groups : List (String × List Candidate)) (c : Candidate) (cs : List Candidate)
      → items n (append_to c.step.step c groups) ++ named n cs ≡ items n groups ++ named n (c ∷ cs)
  named_cons groups c cs = elim (Bool-cases (str_eq c.step.step n)) [
    | inl e ↦
        rw (items-append_to n c c.step.step groups)
          (rw e (append_assoc (items n groups) (c ∷ []) (named n cs)))
    | inr e ↦ rw (items-append_to n c c.step.step groups) (rw e)
  ]

  add_steps-items :
      (manager : String) (level : ℕ) (steps : List CleanStep)
      (groups : List (String × List Candidate))
      → Good n groups
      → (items n (add_steps manager level steps groups)
          ≡ items n groups ++ named n (of_manager (some level) manager steps))
        × Good n (add_steps manager level steps groups)
  unfolding add_steps
  add_steps-items manager level [] groups g = (rw append-nil, g)
  add_steps-items manager level (s ∷ steps) groups g =
      let c : Candidate = record { step = s; manager = manager; support = level } in
      let (e, g') =
        add_steps-items manager level steps (append_to s.step c groups)
          (Good-append_to n c groups g) in
      (e ∙ named_cons groups c (of_manager (some level) manager steps), g')

  keep-append : (cs ds : List Candidate) → named n (cs ++ ds) ≡ named n cs ++ named n ds
  keep-append [] ds = refl
  keep-append (c ∷ cs) ds = elim (Bool-cases (str_eq c.step.step n)) [
    | inl e ↦ rw e (ap (λ l. c ∷ l) (keep-append cs ds))
    | inr e ↦ rw e (keep-append cs ds)
  ]

  add_supported-items :
      (level : Option ℕ) (manager : String) (steps : List CleanStep)
      (groups : List (String × List Candidate))
      → Good n groups
      → (items n (add_supported level manager steps groups)
          ≡ items n groups ++ named n (of_manager level manager steps))
        × Good n (add_supported level manager steps groups)
  unfolding add_supported
  add_supported-items none manager steps groups g = (rw append-nil, g)
  add_supported-items (some level) manager steps groups g =
      add_steps-items manager level steps groups g

  group_steps-items :
      (support : List (String × ℕ)) (candidate_steps : List (String × List CleanStep))
      (groups : List (String × List Candidate))
      → Good n groups
      → (items n (group_steps support candidate_steps groups)
          ≡ items n groups ++ named n (candidates_of support candidate_steps))
        × Good n (group_steps support candidate_steps groups)
  unfolding group_steps
  group_steps-items support [] groups g = (rw append-nil, g)
  group_steps-items support ((manager, steps) ∷ rest) groups g =
      let (e, g') = add_supported-items (get manager support) manager steps groups g in
      let (e', g'') =
        group_steps-items support rest (add_supported (get manager support) manager steps groups)
          g' in
      (
        e'
            ∙ ap (λ l. l ++ named n (candidates_of support rest)) e
            ∙ append_assoc (items n groups)
                (named n (of_manager (get manager support) manager steps))
                (named n (candidates_of support rest))
            ∙ ap (λ l. items n groups ++ l)
                (sym (
                  keep-append (of_manager (get manager support) manager steps)
                    (candidates_of support rest))),
        g'',
      )

  -- The groups that the first loop makes.
  pub group_steps-named :
      (support : List (String × ℕ)) (candidate_steps : List (String × List CleanStep))
      → (items n (group_steps support candidate_steps [])
          ≡ named n (candidates_of support candidate_steps))
        × Good n (group_steps support candidate_steps [])
  group_steps-named support candidate_steps =
      group_steps-items support candidate_steps [] (record { grouped = tt; single = omega arith })
