-- ===== src/Hardware/Managers.antt =====
-- hardware.py: `_get_managers`, its order and its cache, and `load_managers`.
pub mod Order
use test_frerfhrebfd.Common.{ℕ, String, Bool, List, [], ◌∷◌, leb, ltb, keep, if◌then◌else◌}
use test_frerfhrebfd.Errors.Hierarchy.{ErrorClass}
use test_frerfhrebfd.Errors.Build.{rest_error_init}
use test_frerfhrebfd.Exec.{Result, ok, err, Exec}
use test_frerfhrebfd.Hardware.Types.{Manager, Hardware}
use test_frerfhrebfd.Hardware.Sorting.{sorted}

module _ {E V : Type 0} where
  -- `_compare_extensions(ext1, ext2) <= 0`: the difference is not positive exactly if the level
  -- of `ext2` is at most that of `ext1`.
  unfoldable pub compare_extensions : Manager E V → Manager E V → Bool
  compare_extensions ext1 ext2 = leb ext2.evaluate_hardware_support ext1.evaluate_hardware_support

  abbrev pub is_supported : Manager E V → Bool
  is_supported m = ltb 0 m.evaluate_hardware_support

  -- The managers that are kept of those that stevedore has loaded, in the order of the cache.
  unfoldable pub preferred_managers : List (Manager E V) → List (Manager E V)
  preferred_managers extension_manager =
      keep is_supported (sorted compare_extensions extension_manager)

  store_managers : List (Manager E V) → Exec (Hardware E V) (List (Manager E V))
  store_managers [] s = (err (rest_error_init ErrorClass.hardware_manager_not_found ""), s)
  store_managers (m ∷ ms) s = (ok (m ∷ ms), record s { global_managers = m ∷ ms })

  managers_or_load :
      List (Manager E V) → List (Manager E V) → Exec (Hardware E V) (List (Manager E V))
  unfolding preferred_managers store_managers
  managers_or_load extension_manager [] s = store_managers (preferred_managers extension_manager) s
  managers_or_load extension_manager (m ∷ ms) s = (ok (m ∷ ms), s)

  -- `_get_managers()`, with the extensions that stevedore finds
  unfoldable pub get_managers : List (Manager E V) → Exec (Hardware E V) (List (Manager E V))
  unfolding managers_or_load
  get_managers extension_manager s = managers_or_load extension_manager s.global_managers s
