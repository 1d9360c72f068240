-- ===== src/Extensions/Iscsi/CleanUp.antt =====
-- extensions/iscsi.py: `clean_up`.
pub mod Deleted
use test_frerfhrebfd.Common.{
  String, Bool, true, false, Option, none, some, List, [], ◌∷◌, str_eq, format, if◌then◌else◌,
}
use test_frerfhrebfd.Errors.Hierarchy.{ErrorClass}
use test_frerfhrebfd.Errors.Build.{Error, iscsi_error_init, str}
use test_frerfhrebfd.Exec.{Result, ok, err, Exec, pure, raise, except, ◌>>=◌, ◌>>◌}
use test_frerfhrebfd.Extensions.Iscsi.{Storage, Root, Targets, is_unavailable}

-- The first storage object of the device.
unfoldable pub find_storage : String → List Storage → Option Storage
find_storage device [] = none
find_storage device (x ∷ storage_objects) =
    let rest = find_storage device storage_objects in
    if str_eq x.udev_path device then some x else rest

unfoldable pub deletion_failed : Storage → String → Error → Error
deletion_failed storage device exc = iscsi_error_init ErrorClass.iscsi_error (
    format (
      "Failed to delete iSCSI target "
      ∷ storage.name
      ∷ " for device "
      ∷ device
      ∷ ": "
      ∷ str exc
      ∷ []))

module _ {W : Type 0} (targets : Targets W) where
  unfoldable pub root_or_none : Result Root → Exec W (Option Root)
  unfolding is_unavailable
  root_or_none (ok root) = pure (some root)
  root_or_none (err e) = if is_unavailable e then pure none else raise e

  -- The root, or nothing where Linux-IO is not available.
  unfoldable pub get_root : Exec W (Option Root)
  unfolding root_or_none
  get_root w = let (r, w') = targets.rts_root w in root_or_none r w'

  -- The first target of this name is deleted.
  unfoldable pub delete_first : String → List String → Exec W (Unit {0})
  delete_first name [] = pure tt
  delete_first name (wwn ∷ wwns) =
      let rest = delete_first name wwns in
      if str_eq wwn name then targets.delete_target wwn else rest

  unfoldable pub delete_all : String → List String → Storage → Exec W (Unit {0})
  unfolding delete_first deletion_failed except ◌>>=◌
  delete_all device wwns storage =
      except ErrorClass.rtslib_error
        (do delete_first storage.name wwns; targets.delete_storage storage)
        (λ exc. raise (deletion_failed storage device exc))

  unfoldable pub delete_found : String → Root → Option Storage → Exec W (Unit {0})
  unfolding delete_all
  delete_found device root none = pure tt
  delete_found device root (some storage) = delete_all device root.targets storage

  unfoldable pub clean_root : String → Option Root → Exec W (Unit {0})
  unfolding delete_found find_storage
  clean_root device none = pure tt
  clean_root device (some root) =
      delete_found device root (find_storage device root.storage_objects)

  -- `clean_up`
  unfoldable pub clean_up : String → Exec W (Unit {0})
  unfolding get_root clean_root ◌>>=◌
  clean_up device = do root ← get_root; clean_root device root
