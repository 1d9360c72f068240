-- ===== src/Hardware/Erase.antt =====
-- hardware.py: `erase_block_device` of the generic manager, with `_ata_erase` and
-- `_shred_block_device`. `execute` is `utils.execute`, with the exit codes that it accepts;
-- `readlink` gives the target of the label of virtual media, if there is one.
pub mod Confirmed
pub mod Metadata
use test_frerfhrebfd.Common.{
  ℕ, String, Bool, true, false, Option, none, some, List, [], ◌∷◌, ◌++◌, not, ◌||◌, ◌&&◌, str_eq,
  format, show, contains, text_after, text_before, starts_with, split_lines, strip, tabs_to_spaces,
  is_in, if◌then◌else◌,
}
use test_frerfhrebfd.Errors.Hierarchy.{ErrorClass, is_subclass}
use test_frerfhrebfd.Errors.Build.{Error, rest_error_init, foreign_error, str}
use test_frerfhrebfd.Exec.{Result, ok, err, Exec, pure, raise, try_except, except, ◌>>=◌, ◌>>◌}
use test_frerfhrebfd.Hardware.Types.{Node, BlockDevice}

abbrev pub option_or : {A : Type 0} → A → Option A → A
option_or d none = d
option_or d (some a) = a

-- The lines after the heading, as long as they begin with a tab.
tabbed_lines : List String → List String
tabbed_lines [] = []
tabbed_lines (line ∷ lines) =
    let rest = tabbed_lines lines in
    if starts_with "\t" line then tabs_to_spaces (strip line) ∷ rest else []

-- `output.split('\nSecurity: \n')[1]`, in lines
security_and_beyond : Option String → Result (List String)
unfolding tabbed_lines
security_and_beyond none = err (foreign_error ErrorClass.index_error "list index out of range")
security_and_beyond (some s) = ok (tabbed_lines (split_lines (text_before "\nSecurity: \n" s)))

unfoldable pub security_lines_of : String → Result (List String)
unfolding security_and_beyond
security_lines_of output =
    if contains "\nSecurity: " output
    then security_and_beyond (text_after "\nSecurity: \n" output)
    else ok []

erase_error : List String → Error
erase_error parts = rest_error_init ErrorClass.block_device_erase_error (format parts)

unfoldable pub no_fallback : Error → Error
no_fallback e =
    rest_error_init ErrorClass.incompatible_hardware_method_error
      (format ("Failed to invoke ata_erase, fallback to shred is not enabled: " ∷ str e ∷ []))

abbrev pub erase_option : List String → String
erase_option security_lines =
    if is_in "not supported: enhanced erase" security_lines
    then "--security-erase"
    else "--security-erase-enhanced"

module _ {W : Type 0} (execute : List ℕ → List String → Exec W (String × String)) where
  abbrev lift : {A : Type 0} → Result A → Exec W A
  lift r s = (r, s)

  abbrev pub run_command : List String → Exec W (String × String)
  run_command args = execute (0 ∷ []) args

  -- `_get_ata_security_lines`
  unfoldable pub get_ata_security_lines : String → Exec W (List String)
  unfolding security_lines_of ◌>>=◌
  get_ata_security_lines name = do
    out ← run_command ("hdparm" ∷ "-I" ∷ name ∷ [])
    lift (security_lines_of out.0)

  -- `_smartctl_security_check`
  unfoldable pub smartctl_security_check : String → Exec W Bool
  unfolding try_except ◌>>=◌
  smartctl_security_check name =
      try_except
        (do
          out ← execute (0 ∷ 127 ∷ []) ("smartctl" ∷ "-d" ∷ "ata" ∷ name ∷ "-g" ∷ "security" ∷ [])
          pure (not (contains "Unavailable" out.0)))
        (λ e.
          if is_subclass e.class ErrorClass.process_execution_error
          then pure false
          else if is_subclass e.class ErrorClass.os_error
          then pure true
          else raise e)

  -- The commands of hdparm that change the security state.
  abbrev pub hdparm : String → String → String → Exec W (String × String)
  hdparm option password name =
      run_command ("hdparm" ∷ "--user-master" ∷ "u" ∷ option ∷ password ∷ name ∷ [])

  security_unlock : String → String → Exec W (Unit {0})
  unfolding except ◌>>=◌
  security_unlock name password =
      except ErrorClass.process_execution_error
        (do out ← hdparm "--security-unlock" password name; pure tt) (λ e. pure tt)

  unlock_with : String → List String → List String → Exec W (List String)
  unfolding security_unlock get_ata_security_lines ◌>>=◌
  unlock_with name [] security_lines = pure security_lines
  unlock_with name (password ∷ unlock_passwords) security_lines =
      if is_in "not locked" security_lines then pure security_lines else (do
        security_unlock name password
        lines ← get_ata_security_lines name
        unlock_with name unlock_passwords lines)

  abbrev unlock_passwords : List String
  unlock_passwords = "NULL" ∷ "" ∷ []

  -- `__attempt_unlock_drive`; no lines stand for `None` too, since both are false
  attempt_unlock_drive : String → List String → Exec W (List String)
  unfolding unlock_with get_ata_security_lines ◌>>=◌
  attempt_unlock_drive name [] = do
    security_lines ← get_ata_security_lines name
    unlock_with name unlock_passwords security_lines
  attempt_unlock_drive name (line ∷ security_lines) =
      unlock_with name unlock_passwords (line ∷ security_lines)

  -- From SEC1, a user password is set.
  set_password : String → List String → Exec W (Unit {0})
  unfolding except erase_error ◌>>=◌
  set_password name security_lines =
      if is_in "not enabled" security_lines
      then except ErrorClass.process_execution_error
          (do out ← hdparm "--security-set-pass" "NULL" name; pure tt)
          (λ e.
            raise
              (erase_error ("Security password set failed for device " ∷ name ∷ ": " ∷ str e ∷ [])))
      else pure tt

  -- The erase command; if it fails, the drive is unlocked again for a fall back to shred.
  security_erase : String → List String → Exec W (Unit {0})
  unfolding except erase_error attempt_unlock_drive ◌>>=◌
  security_erase name security_lines =
      except ErrorClass.process_execution_error
        (do out ← hdparm (erase_option security_lines) "NULL" name; pure tt)
        (λ e. do
          lines ← attempt_unlock_drive name []
          raise (erase_error ("Erase failed for device " ∷ name ∷ ": " ∷ str e ∷ [])))

  confirm_erased : String → List String → Exec W Bool
  unfolding erase_error
  confirm_erased name security_lines =
      if is_in "not enabled" security_lines
      then pure true
      else raise (erase_error ("An unknown error occurred erasing block device " ∷ name ∷ []))

  -- What follows the unlocking of the drive.
  erase_unlocked : String → List String → Exec W Bool
  unfolding set_password security_erase confirm_erased get_ata_security_lines erase_error ◌>>=◌
  erase_unlocked name security_lines =
      if is_in "not locked" security_lines
      then (do
        set_password name security_lines
        security_erase name security_lines
        lines ← get_ata_security_lines name
        confirm_erased name lines)
      else raise
          (erase_error ("Block device " ∷ name ∷ " already has a security password set" ∷ []))

  -- What follows the test that the drive supports a secure erase.
  erase_supported : String → List String → Exec W Bool
  unfolding attempt_unlock_drive erase_unlocked erase_error ◌>>=◌
  erase_supported name security_lines =
      if is_in "not frozen" security_lines
      then (do lines ← attempt_unlock_drive name security_lines; erase_unlocked name lines)
      else raise (erase_error ("Block device " ∷ name ∷ " is frozen and cannot be erased" ∷ []))

  -- `_ata_erase`
  unfoldable pub ata_erase : String → Exec W Bool
  unfolding get_ata_security_lines smartctl_security_check erase_supported ◌>>=◌
  ata_erase name = do
    security_lines ← get_ata_security_lines name
    permitted ← smartctl_security_check name
    (if not permitted || not (is_in "supported" security_lines)
        then pure false
        else erase_supported name security_lines)

  abbrev pub shred_args : Node → String → List String
  shred_args node name =
      ("shred" ∷ "--force" ∷ [])
      ++ ((if option_or true node.agent_erase_devices_zeroize then "--zero" ∷ [] else [])
          ++ ("--verbose"
              ∷ "--iterations"
              ∷ show (option_or 1 node.agent_erase_devices_iterations)
              ∷ name
              ∷ []))

  -- `_shred_block_device`
  unfoldable pub shred_block_device : Node → String → Exec W Bool
  unfolding try_except ◌>>=◌
  shred_block_device node name =
      try_except (do out ← run_command (shred_args node name); pure true)
        (λ e.
          if is_subclass e.class ErrorClass.process_execution_error
            || is_subclass e.class ErrorClass.os_error
          then pure false
          else raise e)

  module _ (readlink : Exec W (Option String)) where
    -- `_is_virtual_media_device`
    unfoldable pub is_virtual_media_device : String → Exec W Bool
    unfolding ◌>>=◌
    is_virtual_media_device name = do
      device ← readlink
      pure (elim device [ none ↦ false | some d ↦ str_eq name d ])

    -- The `try` with the secure erase: whether the device is erased.
    try_ata_erase : Node → String → Exec W Bool
    unfolding except ata_erase
    try_ata_erase node name =
        except ErrorClass.block_device_erase_error
          (if option_or true node.agent_enable_ata_secure_erase then ata_erase name else pure false)
          (λ e.
            if option_or false node.agent_continue_if_ata_erase_failed
            then pure false
            else raise (no_fallback e))

    pub shred_or_refuse : Node → String → Exec W (Unit {0})
    unfolding shred_block_device ◌>>=◌
    shred_or_refuse node name = do
      shredded ← shred_block_device node name
      (if shredded
          then pure tt
          else raise (
              rest_error_init ErrorClass.incompatible_hardware_method_error (
                format ("Unable to erase block device " ∷ name ∷ ": device is unsupported." ∷ []))))

    erase_physical : Node → String → Exec W (Unit {0})
    unfolding try_ata_erase shred_or_refuse ◌>>=◌
    erase_physical node name = do
      erased ← try_ata_erase node name
      if erased then pure tt else shred_or_refuse node name

    -- `erase_block_device`
    unfoldable pub erase_block_device : Node → BlockDevice → Exec W (Unit {0})
    unfolding is_virtual_media_device erase_physical ◌>>=◌
    erase_block_device node block_device = do
      virtual_media ← is_virtual_media_device block_device.name
      if virtual_media then pure tt else erase_physical node block_device.name
