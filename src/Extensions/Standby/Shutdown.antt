-- ===== src/Extensions/Standby/Shutdown.antt =====
-- extensions/standby.py: `sync`, `_run_shutdown_command`, `run_image` and `power_off`. `execute`
-- is `utils.execute`, with its text for a shell or its arguments.
use test_frerfhrebfd.Common.{
  String, ◌≡◌, refl, true, false, List, [], ◌∷◌, ◌||◌, ◌⊎◌, inl, inr, arith, str_eq, eq_iff, format,
  contains, if◌then◌else◌,
}
use test_frerfhrebfd.Errors.Hierarchy.{ErrorClass}
use test_frerfhrebfd.Errors.Build.{Error, Extra, rest_error_init, system_reboot_error, str}
use test_frerfhrebfd.Exec.{ok, Exec, pure, raise, except, ◌>>=◌, ◌>>◌}
use test_frerfhrebfd.Exec.Ensures.{
  Ensures, Ensures-pure, Ensures-raise, Ensures-if, Ensures-except, Ensures-bind, Ensures-imp,
}

bad_command : String → Error
bad_command command = rest_error_init ErrorClass.invalid_command_params_error (
    format
      ("Expected the command \"poweroff\" or \"reboot\" but received \"" ∷ command ∷ "\"." ∷ []))

-- The error of a command that failed.
reboot_failed : Extra → Error
reboot_failed (Extra.process_output exit_code stdout stderr) =
    system_reboot_error exit_code stdout stderr
reboot_failed _ = system_reboot_error 0 "" ""

module _ {W : Type 0} (execute : List String → Exec W (String × String)) where
  -- `sync`
  unfoldable pub sync : Exec W (Unit {0})
  unfolding except ◌>>=◌
  sync =
      except ErrorClass.process_execution_error (do out ← execute ("sync" ∷ []); pure tt)
        (λ e. raise (
          rest_error_init ErrorClass.command_execution_error
            (format ("Flushing file system buffers failed. Error: " ∷ str e ∷ []))))

  -- A failed flush does not keep the system up.
  try_sync : Exec W (Unit {0})
  unfolding sync except
  try_sync = except ErrorClass.command_execution_error sync (λ e. pure tt)

  -- What is done if the command says that it ignores the request.
  trigger : String → Exec W (Unit {0})
  unfolding ◌>>=◌
  trigger command =
      if str_eq command "poweroff"
      then (do out ← execute ("echo o > /proc/sysrq-trigger" ∷ []); pure tt)
      else if str_eq command "reboot"
      then (do out ← execute ("echo b > /proc/sysrq-trigger" ∷ []); pure tt)
      else pure tt

  issue : String → Exec W (Unit {0})
  unfolding except trigger reboot_failed ◌>>=◌
  issue command =
      except ErrorClass.process_execution_error
        (do
          out ← execute (command ∷ [])
          (if contains "ignoring request." out.1 then trigger command else pure tt))
        (λ e. raise (reboot_failed e.extra))

  -- `_run_shutdown_command`
  unfoldable pub run_shutdown_command : String → Exec W (Unit {0})
  unfolding bad_command try_sync issue ◌>>=◌
  run_shutdown_command command =
      if str_eq command "reboot" || str_eq command "poweroff"
      then (do try_sync; issue command)
      else raise (bad_command command)

  -- `run_image` and `power_off`
  abbrev pub run_image : Exec W (Unit {0})
  run_image = run_shutdown_command "reboot"

  abbrev pub power_off : Exec W (Unit {0})
  power_off = run_shutdown_command "poweroff"

  -- The request of a command by the SysRq trigger.
  abbrev pub request : String → String
  request command =
      if str_eq command "poweroff"
      then "echo o > /proc/sysrq-trigger"
      else "echo b > /proc/sysrq-trigger"

  -- The command itself has run without error last; or it has run, has said that it ignores the
  -- request, and the SysRq trigger was written without error last.
  abbrev pub Requested : String → W → Type 0
  Requested command t =
      (u v : W) × (out : String × String) × (execute (command ∷ []) u ≡ (ok out, v))
      × (((contains "ignoring request." out.1 ≡ false) × (v ≡ t))
          ⊎ ((contains "ignoring request." out.1 ≡ true)
              × (answer : String × String) × (execute (request command ∷ []) v ≡ (ok answer, t))))

  IsShutdown : String → Type 0
  IsShutdown command = (str_eq command "reboot" || str_eq command "poweroff") ≡ true

  trigger-Ran :
      (command : String) (v : W)
      → IsShutdown command
      → Ensures
          (trigger command)
          (λ x t. (answer : String × String) × (execute (request command ∷ []) v ≡ (ok answer, t)))
          v
  unfolding trigger IsShutdown
  trigger-Ran command v k =
      Ensures-if (str_eq command "poweroff")
        (λ b. rw b (Ensures-bind (execute _) _ (λ out t h. Ensures-pure (out, h))))
        (λ b.
          Ensures-if (str_eq command "reboot")
            (λ c. rw b (Ensures-bind (execute _) _ (λ out t h. Ensures-pure (out, h))))
            (λ c. absurd (ground arith)))

  issue-Requested :
      (command : String) (s : W)
      → IsShutdown command
      → Ensures (issue command) (λ x. Requested command) s
  unfolding issue
  issue-Requested command s k =
      Ensures-except _ _ _
        (Ensures-bind (execute (command ∷ [])) _ (λ out v h.
          Ensures-if (contains "ignoring request." out.1)
            (λ b.
              Ensures-imp (trigger-Ran command v k)
                (λ x t (answer, a). (s, v, out, h, inr (b, answer, a))))
            (λ b. Ensures-pure (s, v, out, h, inl (b, refl)))))
        (λ e u h i. Ensures-raise)

  run_shutdown_command-Ensures :
      (command : String) (s : W)
      → Ensures (run_shutdown_command command) (λ x t. IsShutdown command × Requested command t) s
  unfolding run_shutdown_command
  run_shutdown_command-Ensures command s =
      Ensures-if (str_eq command "reboot" || str_eq command "poweroff")
        (λ b. Ensures-bind try_sync _ (λ x u h.
          Ensures-imp (issue-Requested command u (unfold IsShutdown in b))
            (λ y t r. (unfold IsShutdown in b, r))))
        (λ b. Ensures-raise)

  -- A shutdown command that succeeds has been one of the two that are allowed, and has run without
  -- error as the last command, or else its SysRq request has, after the command had refused.
  pub run_shutdown_command-Requested :
      (command : String) (s t : W)
      → run_shutdown_command command s ≡ (ok tt, t)
      → ((command ≡ "reboot") ⊎ (command ≡ "poweroff")) × Requested command t
  unfolding IsShutdown
  run_shutdown_command-Requested command s t h =
      let (k, r) = (run_shutdown_command-Ensures command s).ensured tt t h in
      (ground (arith, eq_iff command "reboot", eq_iff command "poweroff", k), r)
