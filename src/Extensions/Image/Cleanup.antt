-- ===== src/Extensions/Image/Cleanup.antt =====
-- extensions/image.py: the `finally` clause of `_install_grub2`.
pub mod Cleaned
use Prim.Native.String.{◌++◌ as ◌+++◌}
use test_frerfhrebfd.Common.{
  String, Bool, true, false, Option, none, some, List, [], ◌∷◌, ◌++◌, ◌||◌, format, if◌then◌else◌,
}
use test_frerfhrebfd.Errors.Hierarchy.{ErrorClass}
use test_frerfhrebfd.Errors.Build.{Error, rest_error_init, foreign_error, str}
use test_frerfhrebfd.Exec.{Result, ok, err, Exec, pure, raise, except, ◌>>=◌, ◌>>◌}
use test_frerfhrebfd.Extensions.Image.{Shell, bind_mounts, umount, efi_mount_point}

unfoldable pub umount_failed : Error → Error
umount_failed e =
    rest_error_init ErrorClass.command_execution_error
      (format ("Umounting efi system partition failed. Attempted 3 times. Error: " ∷ str e ∷ []))

module _ {W : Type 0} (shell : Shell W) where
  -- Whether `umount` has failed.
  unfoldable pub try_umount : String → Exec W Bool
  unfolding except ◌>>=◌
  try_umount path =
      except ErrorClass.process_execution_error (do shell.execute (umount path); pure false)
        (λ e. pure true)

  -- Whether one of them has failed; all are tried.
  unfoldable pub umount_each : String → List String → Exec W Bool
  unfolding try_umount ◌>>=◌
  umount_each path [] = pure false
  umount_each path (fs ∷ mounted) = do
    failed ← try_umount (path +++ fs)
    rest_failed ← umount_each path mounted
    pure (failed || rest_failed)

  unfoldable pub remove_unless : String → Bool → Exec W (Unit {0})
  remove_unless path failed = if failed then pure tt else shell.rmtree path

  unfoldable pub umount_and_remove_unless : String → Bool → Exec W (Unit {0})
  unfolding try_umount remove_unless ◌>>=◌
  umount_and_remove_unless path umount_binds_fail =
      if umount_binds_fail
      then pure tt
      else (do failed ← try_umount path; remove_unless path failed)

  unfoldable pub umount_path : String → Exec W (Unit {0})
  unfolding umount_each umount_and_remove_unless ◌>>=◌
  umount_path path = do
    umount_binds_fail ← umount_each path (bind_mounts ++ ("/sys" ∷ []))
    umount_and_remove_unless path umount_binds_fail

  unfoldable pub umount_efi : String → Bool → Exec W (Unit {0})
  unfolding umount_failed except ◌>>=◌
  umount_efi path efi_mounted =
      except ErrorClass.process_execution_error
        (if efi_mounted
          then (do shell.execute (umount (efi_mount_point path)); pure tt)
          else pure tt)
        (λ e. raise (umount_failed e))

  -- The `finally` clause; no path is there if no directory could be made.
  unfoldable pub clean_up : Option String → Bool → Exec W (Unit {0})
  unfolding umount_efi umount_path ◌>>=◌
  clean_up none efi_mounted =
      raise
        (foreign_error ErrorClass.exception "local variable 'path' referenced before assignment")
  clean_up (some path) efi_mounted = do umount_efi path efi_mounted; umount_path path
