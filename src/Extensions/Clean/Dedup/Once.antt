-- ===== src/Extensions/Clean/Dedup/Once.antt =====
-- What `_deduplicate_steps` returns: each step name once, with its winner.
use mathlib.Core.List.{append-nil, append-eq-nil_iff}
use test_frerfhrebfd.Common.{
  ℕ, ◌≤◌, String, ◌≡◌, ◌≢◌, refl, ap, ◌∙◌, true, false, Option, none, some, List, [], ◌∷◌, ◌++◌,
  ◌⊎◌, arith, All, Among, str_eq, eq_iff, Bool-cases, inl, inr, if◌then◌else◌,
}
use test_frerfhrebfd.Exec.{ok}
use test_frerfhrebfd.Hardware.Types.{CleanStep}
use test_frerfhrebfd.Extensions.Clean.Dedup.{
  Candidate, append_to, group_steps, winning_step, choose_steps, deduplicate_steps,
}
use test_frerfhrebfd.Extensions.Clean.Dedup.Winner.{winning_step-Outranks}
use test_frerfhrebfd.Extensions.Clean.Dedup.Groups.{
  candidates_of, named, items, key_count, IsGrouped, group_steps-named,
}

abbrev in_entry : String → String → List CleanStep → List (String × CleanStep)
in_entry n manager [] = []
in_entry n manager (s ∷ steps) =
    let rest = in_entry n manager steps in if str_eq s.step n then (manager, s) ∷ rest else rest

-- The steps of one name in the result, each with the manager it stands under.
abbrev pub steps_named : String → List (String × List CleanStep) → List (String × CleanStep)
steps_named n [] = []
steps_named n ((manager, steps) ∷ d) = in_entry n manager steps ++ steps_named n d

abbrev chosen_of : Option Candidate → List (String × CleanStep)
chosen_of none = []
chosen_of (some w) = (w.manager, w.step) ∷ []

abbrev pub chosen : List Candidate → List (String × CleanStep)
chosen l = chosen_of (winning_step l)

module _ (n : String) (s : CleanStep) where
  in_entry-append :
      (manager : String) (steps : List CleanStep)
      → in_entry n manager (steps ++ s ∷ [])
        ≡ in_entry n manager steps ++ (if str_eq s.step n then (manager, s) ∷ [] else [])
  in_entry-append manager [] = refl
  in_entry-append manager (t ∷ steps) = elim (Bool-cases (str_eq t.step n)) [
    | inl e ↦ rw e (ap (λ l. (manager, t) ∷ l) (in_entry-append manager steps))
    | inr e ↦ rw e (in_entry-append manager steps)
  ]

  -- A step of another name is not seen.
  steps_named_ne :
      (manager : String) (d : List (String × List CleanStep))
      → str_eq s.step n ≡ false
      → steps_named n (append_to manager s d) ≡ steps_named n d
  unfolding append_to
  steps_named_ne manager [] h = rw h
  steps_named_ne manager ((j, steps) ∷ d) h = elim (Bool-cases (str_eq j manager)) [
    | inl e ↦ rw e (rw (in_entry-append j steps) (rw h (rw append-nil)))
    | inr e ↦ rw e (ap (λ l. in_entry n j steps ++ l) (steps_named_ne manager d h))
  ]

  -- The first step of its name is the only one.
  steps_named_first :
      (manager : String) (d : List (String × List CleanStep))
      → str_eq s.step n ≡ true
      → steps_named n d ≡ []
      → steps_named n (append_to manager s d) ≡ (manager, s) ∷ []
  unfolding append_to
  steps_named_first manager [] h e = rw h
  steps_named_first manager ((j, steps) ∷ d) h e =
      let (here, later) = (append-eq-nil_iff {p = in_entry n j steps} {q = steps_named n d}).0 e in
      elim (Bool-cases (str_eq j manager)) [
        | inl k ↦ rw k (
            rw (in_entry-append j steps)
              (rw (h, here, later) (ap (λ m. (m, s) ∷ []) ((eq_iff j manager).0 k))))
        | inr k ↦ rw k (rw here (steps_named_first manager d h later))
      ]

Among_All :
    (P : Candidate → Type 0) (l : List Candidate) (w : Candidate) → Among l w → All P l → P w
Among_All P [] w m h = absurd m
Among_All P (c ∷ l) w (inl e) h = rw (← e) h.0
Among_All P (c ∷ l) w (inr m) h = Among_All P l w m h.1

-- The winner of a group, which bears the group's name.
group_winner :
    (k : String) (l : List Candidate)
    → l ≢ []
    → All (λ c. c.step.step ≡ k) l
    → (w : Candidate) × (winning_step l ≡ some w) × (w.step.step ≡ k)
group_winner k [] n h = absurd (n refl)
group_winner k (c ∷ l) n h =
    let (w, e, m, _) = winning_step-Outranks c l in
    (w, e, Among_All (λ d. d.step.step ≡ k) (c ∷ l) w m h)

choose_step :
    (k : String) (l : List Candidate) (w : Candidate) (groups : List (String × List Candidate))
    (acc : List (String × List CleanStep))
    → winning_step l ≡ some w
    → choose_steps ((k, l) ∷ groups) acc ≡ choose_steps groups (append_to w.manager w.step acc)
unfolding choose_steps
choose_step k l w groups acc e = rw (e, choose_steps)

items_none :
    (n : String) (groups : List (String × List Candidate))
    → key_count n groups ≡ 0
    → items n groups ≡ []
items_none n [] h = refl
items_none n ((k, l) ∷ groups) h = elim (Bool-cases (str_eq k n)) [
  | inl e ↦ absurd (ground arith)
  | inr e ↦ rw e (items_none n groups (ground arith))
]

chosen-nil : chosen [] ≡ []
unfolding winning_step
chosen-nil = refl

-- The round of the name itself: the winner, and nothing later.
same_round :
    (before after : List (String × CleanStep)) (later l : List Candidate) (w : Candidate)
    → before ≡ []
    → after ≡ (w.manager, w.step) ∷ []
    → later ≡ []
    → winning_step l ≡ some w
    → after ++ chosen later ≡ before ++ chosen l
same_round before after later l w b a i e =
    rw (b, a, i, e) (ap (λ x. (w.manager, w.step) ∷ x) chosen-nil)

-- The second loop adds the winner of the group of a name, and nothing else of that name.
choose_steps-named :
    (n : String) (groups : List (String × List Candidate)) (acc : List (String × List CleanStep))
    → IsGrouped groups
    → key_count n groups ≤ 1
    → (key_count n groups ≡ 0) ⊎ (steps_named n acc ≡ [])
    → (d : List (String × List CleanStep)) × (choose_steps groups acc ≡ ok d)
      × (steps_named n d ≡ steps_named n acc ++ chosen (items n groups))
choose_steps-named n [] acc g c f = (acc, unfold choose_steps in refl, rw (chosen-nil, append-nil))
choose_steps-named n ((k, l) ∷ groups) acc g c f =
    let (w, e, b) = group_winner k l g.0 g.1 in
    let acc' = append_to w.manager w.step acc in
    let step = choose_step k l w groups acc e in
    elim (Bool-cases (str_eq k n)) [
      | inl same ↦
          let none_left : key_count n groups ≡ 0 = ground arith in
          let fresh : steps_named n acc ≡ [] = ground arith in
          let (d, r, m) = choose_steps-named n groups acc' g.2 (omega arith) (inl none_left) in
          (
            d,
            step ∙ r,
            rw same (
                m
                ∙ same_round (steps_named n acc) (steps_named n acc') (items n groups) l w fresh
                    (steps_named_first n w.step w.manager acc (rw b same) fresh)
                    (items_none n groups none_left) e),
          )
      | inr other ↦
          let kept = steps_named_ne n w.step w.manager acc (rw b other) in
          let apart : (key_count n groups ≡ 0) ⊎ (steps_named n acc' ≡ []) = elim f [
            | inl z ↦ inl (ground arith)
            | inr z ↦ inr (kept ∙ z)
          ] in
          let (d, r, m) = choose_steps-named n groups acc' g.2 (ground arith) apart in
          (d, step ∙ r, rw other (m ∙ ap (λ x. x ++ chosen (items n groups)) kept))
    ]

-- For every name, `_deduplicate_steps` returns exactly the winner of the steps of that name whose
-- manager's support is known, under that manager, and nothing if there is none; it never fails.
pub deduplicate_steps-chosen :
    (support : List (String × ℕ)) (candidate_steps : List (String × List CleanStep)) (n : String)
    → (d : List (String × List CleanStep)) × (deduplicate_steps support candidate_steps ≡ ok d)
      × (steps_named n d ≡ chosen (named n (candidates_of support candidate_steps)))
unfolding deduplicate_steps
deduplicate_steps-chosen support candidate_steps n =
    let (i, good) = group_steps-named n support candidate_steps in
    let (d, r, m) =
      choose_steps-named n (group_steps support candidate_steps []) [] good.grouped good.single
        (inr refl) in
    (d, r, m ∙ ap chosen i)
