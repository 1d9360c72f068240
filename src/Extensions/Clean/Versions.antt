-- ===== src/Extensions/Clean/Versions.antt =====
-- extensions/clean.py: the versions of the hardware managers, `_check_clean_version`, and the
-- commands `get_clean_steps` and `execute_clean_step`. `show_versions` prints a dictionary.
pub mod Checked
use test_frerfhrebfd.Common.{
  ℕ, String, Bool, true, false, Option, none, some, List, [], ◌∷◌, ◌&&◌, get, insert, str_eq,
  format, if◌then◌else◌,
}
use test_frerfhrebfd.Errors.Hierarchy.{ErrorClass}
use test_frerfhrebfd.Errors.Build.{
  Error, rest_error_init, foreign_error, clean_version_mismatch, str,
}
use test_frerfhrebfd.Exec.{Result, ok, err, Exec, pure, raise, try_except, ◌>>=◌, ◌>>◌}
use test_frerfhrebfd.Hardware.Types.{Node, World, Version, CleanStep, Manager, Hardware}
use test_frerfhrebfd.Hardware.Dispatch.{
  dispatch_to_managers, dispatch_to_all_managers, cache_node, lift,
}
use test_frerfhrebfd.Extensions.Clean.Dedup.{deduplicate_steps}

-- A dictionary from the names of hardware managers to their versions.
abbrev pub Versions : Type 0
Versions = List (String × String)

-- The dictionary comprehension over the answers, with what is collected so far.
pub versions_of : List (String × Version) → Versions → Versions
versions_of [] versions = versions
versions_of ((class_name, v) ∷ answers) versions =
    versions_of answers (insert v.name v.version versions)

is_version : Option String → String → Bool
is_version none s = false
is_version (some t) s = str_eq t s

-- Each entry of the first dictionary is one of the second.
is_within : Versions → Versions → Bool
unfolding is_version
is_within [] versions = true
is_within ((name, version) ∷ rest) versions =
    is_version (get name versions) version && is_within rest versions

-- `==` of dictionaries, which disregards their order
pub same_versions : Versions → Versions → Bool
unfolding is_within
same_versions a b = is_within a b && is_within b a

unfoldable pub cleaning_failed : String → Error → Error
cleaning_failed step e =
    rest_error_init ErrorClass.cleaning_error
      (format ("Error performing clean_step " ∷ step ∷ ": " ∷ str e ∷ []))

abbrev apply_to :
    {E A : Type 0} → Node → Option (Node → Exec (World E) A) → Option (Exec (World E) A)
apply_to node none = none
apply_to node (some f) = some (f node)

module _ {E V : Type 0} where
  abbrev pub version_call : Manager E V → Option (Exec (World E) Version)
  version_call m = m.get_version

  abbrev support_call : Manager E V → Option (Exec (World E) ℕ)
  support_call m = some (λ w. (ok m.evaluate_hardware_support, w))

  abbrev steps_call : Node → Manager E V → Option (Exec (World E) (List CleanStep))
  steps_call node m = apply_to node m.get_clean_steps

  abbrev pub step_call : Node → String → Manager E V → Option (Exec (World E) V)
  step_call node step m = apply_to node (m.clean_step step)

module _ {E V : Type 0} (extension_manager : List (Manager E V)) where
  -- `_get_current_clean_version`
  unfoldable pub get_current_clean_version : Exec (Hardware E V) Versions
  unfolding dispatch_to_all_managers versions_of ◌>>=◌
  get_current_clean_version = do
    answers ← dispatch_to_all_managers extension_manager "get_version" version_call
    pure (versions_of answers [])

  -- `get_clean_steps`
  unfoldable pub get_clean_steps :
      Node → Exec (Hardware E V) (List (String × List CleanStep) × Versions)
  unfolding cache_node dispatch_to_all_managers deduplicate_steps get_current_clean_version ◌>>=◌
  get_clean_steps node = do
    cache_node extension_manager node
    candidate_steps ← dispatch_to_all_managers extension_manager "get_clean_steps" (steps_call node)
    support ← dispatch_to_all_managers extension_manager "evaluate_hardware_support" support_call
    clean_steps ← lift (deduplicate_steps support candidate_steps)
    hardware_manager_version ← get_current_clean_version
    pure (clean_steps, hardware_manager_version)

  module _ (show_versions : Versions → String) where
    compare_versions : Versions → Versions → Exec (Hardware E V) (Unit {0})
    unfolding same_versions
    compare_versions clean_version agent_version =
        if same_versions clean_version agent_version
        then pure tt
        else raise
            (clean_version_mismatch (show_versions agent_version) (show_versions clean_version))

    -- `_check_clean_version`
    unfoldable pub check_clean_version : Option Versions → Exec (Hardware E V) (Unit {0})
    unfolding get_current_clean_version compare_versions ◌>>=◌
    check_clean_version none = pure tt
    check_clean_version (some clean_version) = do
      agent_version ← get_current_clean_version
      compare_versions clean_version agent_version

    -- The dispatch of the step; whatever it raises is a CleaningError.
    unfoldable pub perform_step : Node → String → Exec (Hardware E V) V
    unfolding dispatch_to_managers try_except
    perform_step node step =
        try_except (dispatch_to_managers extension_manager step (step_call node step))
          (λ e. raise (cleaning_failed step e))

    perform : Node → Option String → Exec (Hardware E V) V
    unfolding perform_step
    perform node none =
        raise (foreign_error ErrorClass.value_error "Malformed clean_step, no \"step\" key")
    perform node (some step) = perform_step node step

    -- `execute_clean_step`, by the entry `step` of the step; its result is `clean_result`
    unfoldable pub execute_clean_step :
        Option String → Node → Option Versions → Exec (Hardware E V) V
    unfolding cache_node check_clean_version perform ◌>>=◌
    execute_clean_step step node clean_version = do
      cache_node extension_manager node
      check_clean_version clean_version
      perform node step
