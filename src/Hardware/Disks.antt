-- ===== src/Hardware/Disks.antt =====
-- hardware.py: `wait_for_disks`; utils.py: `guess_root_disk`.
pub mod Guess
pub mod Wait
use test_frerfhrebfd.Common.{
  ℕ, zero, suc, String, Bool, true, false, Option, none, some, List, [], ◌∷◌, ltb, leb, ◌==◌,
  format, show, if◌then◌else◌,
}
use test_frerfhrebfd.Errors.Hierarchy.{ErrorClass}
use test_frerfhrebfd.Errors.Build.{Error, rest_error_init}
use test_frerfhrebfd.Exec.{Result, ok, err, Exec, pure, except, ◌>>=◌, ◌>>◌}
use test_frerfhrebfd.Hardware.Types.{BlockDevice}
use test_frerfhrebfd.Hardware.Sorting.{sorted}

-- `key=lambda device: device.size`
abbrev pub size_order : BlockDevice → BlockDevice → Bool
size_order a b = leb a.size b.size

-- `not block_devices or block_devices[-1].size < min_size_required`
too_small : ℕ → List BlockDevice → Bool
too_small min_size_required [] = true
too_small min_size_required (device ∷ []) = ltb device.size min_size_required
too_small min_size_required (device ∷ next ∷ devices) = too_small min_size_required (next ∷ devices)

-- The loop for the first device that is large enough.
first_large : ℕ → List BlockDevice → Option BlockDevice
first_large min_size_required [] = none
first_large min_size_required (device ∷ devices) =
    let rest = first_large min_size_required devices in
    if leb min_size_required device.size then some device else rest

unfoldable pub no_device : ℕ → Error
no_device min_size_required = rest_error_init ErrorClass.device_not_found (
    format (
      "No suitable device was found for deployment - root device hints were not provided and all"
      ∷ " found block devices are smaller than "
      ∷ show min_size_required
      ∷ "B."
      ∷ []))

guess_sorted : ℕ → List BlockDevice → Result (Option BlockDevice)
unfolding too_small first_large
guess_sorted min_size_required block_devices =
    if too_small min_size_required block_devices
    then err (no_device min_size_required)
    else ok (first_large min_size_required block_devices)

-- `guess_root_disk`; no device at all would be Python's `None`
unfoldable pub guess_root_disk : List BlockDevice → ℕ → Result (Option BlockDevice)
unfolding guess_sorted sorted
guess_root_disk block_devices min_size_required =
    guess_sorted min_size_required (sorted size_order block_devices)

module _ {W : Type 0} (get_os_install_device : Exec W String) (sleep : W → W) where
  -- What is done between two attempts; after the last one nothing is.
  abbrev pause : ℕ → W → W
  pause zero w = w
  pause (suc attempts) w = sleep w

  -- The loop, with the attempts that are left.
  try_attempts : ℕ → Exec W (Unit {0})
  unfolding except ◌>>=◌
  try_attempts zero = pure tt
  try_attempts (suc attempts) =
      let rest = try_attempts attempts in
      except ErrorClass.device_not_found (do device ← get_os_install_device; pure tt)
        (λ e w. rest (pause attempts w))

  -- `wait_for_disks`, with the option `disk_wait_attempts`
  unfoldable pub wait_for_disks : ℕ → Exec W (Unit {0})
  unfolding try_attempts
  wait_for_disks zero = pure tt
  wait_for_disks (suc attempts) = try_attempts (suc attempts)
