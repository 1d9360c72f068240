-- ===== src/Extensions/Clean/Dedup.antt =====
-- extensions/clean.py: `_deduplicate_steps`.
pub mod Winner
pub mod Groups
pub mod Once
use test_frerfhrebfd.Common.{
  ℕ, String, Bool, Option, none, some, List, [], ◌∷◌, ◌++◌, map, keep, get, ◌==◌, leb, str_eq,
  text_leb, if◌then◌else◌,
}
use test_frerfhrebfd.Errors.Hierarchy.{ErrorClass}
use test_frerfhrebfd.Errors.Build.{foreign_error}
use test_frerfhrebfd.Exec.{Result, ok, err}
use test_frerfhrebfd.Hardware.Types.{CleanStep}
use test_frerfhrebfd.Hardware.Sorting.{sorted}

-- A step with the entry `hwm` that is added to it: its manager's name and support level.
pub record Candidate : Type 0 where
  pub step : CleanStep
  pub manager : String
  pub support : ℕ

-- `d[k].append(x)` of a `defaultdict(list)`
pub append_to {ℓ} : {A : Type ℓ} → String → A → List (String × List A) → List (String × List A)
append_to k x [] = (k, x ∷ []) ∷ []
append_to k x ((j, xs) ∷ d) =
    if str_eq j k then (j, xs ++ x ∷ []) ∷ d else (j, xs) ∷ append_to k x d

-- The steps of one manager, under their names.
add_steps :
    String → ℕ → List CleanStep → List (String × List Candidate) → List (String × List Candidate)
unfolding append_to
add_steps manager level [] groups = groups
add_steps manager level (s ∷ manager_steps) groups =
    add_steps manager level manager_steps
      (append_to s.step (record { step = s; manager = manager; support = level }) groups)

-- The steps of a manager whose support is unknown are dropped.
add_supported :
    Option ℕ
    → String
    → List CleanStep
    → List (String × List Candidate)
    → List (String × List Candidate)
unfolding add_steps
add_supported none manager manager_steps groups = groups
add_supported (some level) manager manager_steps groups =
    add_steps manager level manager_steps groups

-- The first loop: `steps`, by step name.
pub group_steps :
    List (String × ℕ)
    → List (String × List CleanStep)
    → List (String × List Candidate)
    → List (String × List Candidate)
unfolding add_supported
group_steps support [] groups = groups
group_steps support ((manager, manager_steps) ∷ candidate_steps) groups =
    group_steps support candidate_steps
      (add_supported (get manager support) manager manager_steps groups)

-- `max([key(x) for x in candidates])` of a list that is not empty
max_key : (Candidate → ℕ) → List Candidate → ℕ
max_key key [] = 0
max_key key (c ∷ cs) = let m = max_key key cs in if leb m (key c) then key c else m

-- `[x for x in candidates if key(x) == max_key]`
at_max : (Candidate → ℕ) → List Candidate → List Candidate
unfolding max_key
at_max key candidates = keep (λ x. key x == max_key key candidates) candidates

abbrev pub support_of : Candidate → ℕ
support_of c = c.support

abbrev pub priority_of : Candidate → ℕ
priority_of c = c.step.priority

abbrev pub name_order : Candidate → Candidate → Bool
name_order a b = text_leb a.manager b.manager

abbrev first : List Candidate → Option Candidate
first [] = none
first (c ∷ cs) = some c

-- The step that wins among those of one name; none of an empty list.
pub winning_step : List Candidate → Option Candidate
unfolding at_max sorted
winning_step step_list =
    first (sorted name_order (at_max priority_of (at_max support_of step_list)))

-- One round of the second loop; `max` of an empty list is a ValueError.
add_winner :
    Option Candidate → List (String × List CleanStep) → Result (List (String × List CleanStep))
unfolding append_to
add_winner none deduped_steps =
    err (foreign_error ErrorClass.value_error "max() arg is an empty sequence")
add_winner (some c) deduped_steps = ok (append_to c.manager c.step deduped_steps)

-- The second loop.
pub choose_steps :
    List (String × List Candidate)
    → List (String × List CleanStep)
    → Result (List (String × List CleanStep))
unfolding add_winner winning_step
choose_steps [] deduped_steps = ok deduped_steps
choose_steps ((step_name, step_list) ∷ groups) deduped_steps =
    elim (add_winner (winning_step step_list) deduped_steps) [
      | ok deduped_steps' ↦ choose_steps groups deduped_steps'
      | err e ↦ err e
    ]

-- `_deduplicate_steps`, with the answers to `evaluate_hardware_support`
unfoldable pub deduplicate_steps :
    List (String × ℕ) → List (String × List CleanStep) → Result (List (String × List CleanStep))
unfolding group_steps choose_steps
deduplicate_steps support candidate_steps = choose_steps (group_steps support candidate_steps []) []
