-- ===== src/Extensions/Flow.antt =====
-- ironic_python_agent/extensions/flow.py: the extension runs commands of its own, one after the
-- other, and waits for the end of each.
pub mod Ran
use test_frerfhrebfd.Common.{
  ℕ, String, Bool, true, false, Option, none, some, List, [], ◌∷◌, get, format, if◌then◌else◌,
}
use test_frerfhrebfd.Errors.Hierarchy.{ErrorClass}
use test_frerfhrebfd.Errors.Build.{Error, rest_error_init, foreign_error}
use test_frerfhrebfd.Exec.{Result, ok, err, Exec, pure, raise, modify, ◌>>=◌, ◌>>◌}
use test_frerfhrebfd.Value.{Fields}
use test_frerfhrebfd.Extensions.Base.Results.{CommandResult, CommandStatus}
use test_frerfhrebfd.Extensions.Base.Commands.{
  Command, Extension, Agent, split_command, execute_command, complete,
}

-- A task: commands with their parameters.
abbrev pub Task : Type 0
Task = List (String × Fields)

abbrev pub is_failed : Option CommandResult → Bool
is_failed none = false
is_failed (some r) = elim r.command_status [ CommandStatus.failed ↦ true | _ ↦ false ]

failed : String → Error
failed method =
    rest_error_init ErrorClass.command_execution_error (format (method ∷ " was failed" ∷ []))

module _ {W : Type 0} (uuid : ℕ → String) where
  -- `result.join()`: the thread of the command has ended, if it has one.
  abbrev pub join : String → Exec (Agent W) (Unit {0})
  join id = modify (complete id)

  -- The result object, as the end of its thread has left it.
  check_status : String → String → Exec (Agent W) (Unit {0})
  unfolding failed
  check_status method id s =
      if is_failed (get id s.command_results) then (err (failed method), s) else (ok tt, s)

  unfoldable pub run_method : String → Fields → Exec (Agent W) (Unit {0})
  unfolding execute_command complete check_status ◌>>=◌
  run_method method params = do
    result ← execute_command uuid method params
    join result.id
    check_status method result.id

  unfoldable pub run_task : Task → Exec (Agent W) (Unit {0})
  unfolding run_method ◌>>=◌
  run_task [] = pure tt
  run_task ((method, params) ∷ task) = do run_method method params; run_task task

  -- `start_flow`
  unfoldable pub start_flow : List Task → Exec (Agent W) (Unit {0})
  unfolding run_task ◌>>=◌
  start_flow [] = pure tt
  start_flow (task ∷ flow) = do run_task task; start_flow flow

-- `check_cmd_presence`
check_cmd_presence : {W : Type 0} → String → String → Extension W → Result (Unit {0})
check_cmd_presence ext cmd command_map = elim (get cmd command_map) [
  | none ↦ err (
      rest_error_init ErrorClass.invalid_command_params_error
        (format ("Extension " ∷ ext ∷ " doesn't provide " ∷ cmd ∷ " method" ∷ [])))
  | some c ↦ ok tt
]

check_extension : {W : Type 0} → String → String → Option (Extension W) → Result (Unit {0})
unfolding check_cmd_presence
check_extension ext cmd none = err (
    rest_error_init ErrorClass.requested_object_not_found_error
      (format ("Extension with id " ∷ ext ∷ " not found." ∷ [])))
check_extension ext cmd (some command_map) = check_cmd_presence ext cmd command_map

check_parts :
    {W : Type 0} → List (String × Extension W) → Result (String × String) → Result (Unit {0})
unfolding check_extension
check_parts ext_mgr (err e) = err e
check_parts ext_mgr (ok (ext, cmd)) = check_extension ext cmd (get ext ext_mgr)

abbrev and_then : Result (Unit {0}) → Result (Unit {0}) → Result (Unit {0})
and_then (ok x) r = r
and_then (err e) r = err e

validate_task : {W : Type 0} → List (String × Extension W) → Task → Result (Unit {0})
unfolding check_parts split_command
validate_task ext_mgr [] = ok tt
validate_task ext_mgr ((method, params) ∷ task) =
    and_then (check_parts ext_mgr (split_command method)) (validate_task ext_mgr task)

-- `_validate_exts`
unfoldable pub validate_exts :
    {W : Type 0} → List (String × Extension W) → List Task → Result (Unit {0})
unfolding validate_task
validate_exts ext_mgr [] = ok tt
validate_exts ext_mgr (task ∷ flow) =
    and_then (validate_task ext_mgr task) (validate_exts ext_mgr flow)
