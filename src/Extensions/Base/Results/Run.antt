-- ===== src/Extensions/Base/Results/Run.antt =====
-- What a finished thread reports.
use test_frerfhrebfd.Common.{◌≡◌, refl, true, false, ◌⊎◌, inl, inr, Bool-cases}
use test_frerfhrebfd.Errors.Hierarchy.{ErrorClass, is_subclass}
use test_frerfhrebfd.Errors.Hierarchy.Codes.{mismatch-IsRest}
use test_frerfhrebfd.Errors.Build.{Error, rest_error_init}
use test_frerfhrebfd.Exec.{err}
use test_frerfhrebfd.Extensions.Base.Results.{
  CommandResult, CommandStatus, Payload, run, reported, nothing,
}

reported-IsRest : (e : Error) → is_subclass (reported e).class ErrorClass.rest_error ≡ true
unfolding reported
reported-IsRest e = elim (Bool-cases (is_subclass e.class ErrorClass.rest_error)) [
  | inl h ↦ rw h h
  | inr h ↦ rw h (unfold is_subclass rest_error_init in refl)
]

-- What `AsyncCommandResult.run` leaves when `execute_method` raised: the status tells a version
-- mismatch from any other failure, and what is not a RESTError is reported as a
-- CommandExecutionError with its text. So `command_error` always is a RESTError.
pub run_err :
    (e : Error) (r : CommandResult)
    → (x : Error) × ((run (err e) r).command_error ≡ Payload.exception x)
      × (is_subclass x.class ErrorClass.rest_error ≡ true)
      × (((is_subclass e.class ErrorClass.clean_version_mismatch ≡ true)
            × (x ≡ e)
            × ((run (err e) r).command_status ≡ CommandStatus.clean_version_mismatch)
            × ((run (err e) r).command_result ≡ nothing))
          ⊎ ((is_subclass e.class ErrorClass.clean_version_mismatch ≡ false)
              × ((run (err e) r).command_status ≡ CommandStatus.failed)
              × ((run (err e) r).command_result ≡ r.command_result)))
unfolding run
run_err e r = elim (Bool-cases (is_subclass e.class ErrorClass.clean_version_mismatch)) [
  | inl m ↦ (e, rw m, mismatch-IsRest e.class m, inl (m, refl, rw m, rw m))
  | inr m ↦ (reported e, rw m, reported-IsRest e, inr (m, rw m, rw m))
]
