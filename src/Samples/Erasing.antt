-- ===== src/Samples/Erasing.antt =====
-- hardware.py: the choice of a disk, and erasure of a drive that speaks the ATA security commands.
-- The world is the number
-- of commands that have run.
use test_frerfhrebfd.Common.{[], ◌∷◌, ◌==◌}
use test_frerfhrebfd.Common.{
  ℕ, suc, String, ◌≡◌, refl, true, false, Option, none, some, List, is_in, format, contains,
  split_lines, text_before, tabs_to_spaces, strip, if◌then◌else◌,
}
use test_frerfhrebfd.Errors.Hierarchy.{ErrorClass, is_subclass}
use test_frerfhrebfd.Errors.Build.{Error, process_execution_error, rest_error_init, str}
use test_frerfhrebfd.Exec.{ok, err, Exec}
use test_frerfhrebfd.Hardware.Types.{Node, BlockDevice}
use test_frerfhrebfd.Hardware.Disks.{guess_root_disk, wait_for_disks, no_device}
use test_frerfhrebfd.Hardware.Disks.Guess.{Guessed, guess_root_disk-Guessed}
use test_frerfhrebfd.Hardware.Disks.Wait.{Waited, wait_for_disks-Waited}
use test_frerfhrebfd.Hardware.Erase.{ata_erase, erase_block_device}
use test_frerfhrebfd.Hardware.Erase.Confirmed.{Erased, erase_block_device-Erased}
use test_frerfhrebfd.Common.{All}
use test_frerfhrebfd.Hardware.Erase.Metadata.{erase_devices_metadata}
use test_frerfhrebfd.Hardware.Erase.Metadata.Wiped.{Wiped, erase_devices_metadata-Wiped}

abbrev node : Node
node = record {
  uuid = some "1be26c0b";
  root_device = none;
  agent_enable_ata_secure_erase = none;
  agent_continue_if_ata_erase_failed = some true;
  agent_erase_devices_iterations = none;
  agent_erase_devices_zeroize = none;
}

abbrev sda : BlockDevice
sda = record { name = "/dev/sda"; model = "SSD"; size = 256; rotational = false }

abbrev drive_report : String
drive_report =
    "Standards:\n\nSecurity: \n\t\tsupported\n\tnot\tenabled\n\tnot\tlocked\n\tnot\tfrozen\nLogical"

-- A drive that can be erased.
abbrev good_drive : List ℕ → List String → Exec ℕ (String × String)
good_drive codes args s = (ok (if is_in "-I" args then drive_report else "", ""), suc s)

abbrev no_link : Exec ℕ (Option String)
no_link s = (ok none, s)

erased_good : erase_block_device good_drive no_link node sda 0 ≡ (ok tt, 5)
unfolding erase_block_device ata_erase is_subclass contains split_lines text_before tabs_to_spaces
    strip
erased_good = refl

erase_block_device-Erased_example : Erased good_drive no_link node "/dev/sda" 0 5
erase_block_device-Erased_example =
    erase_block_device-Erased good_drive no_link node sda 0 5 erased_good

-- The fifth command, the erasure, fails.
abbrev failing_drive : List ℕ → List String → Exec ℕ (String × String)
failing_drive codes args s = (
  if is_in "--security-erase-enhanced" args
      then err (process_execution_error 5 "" "I/O error" "Unexpected error")
      else ok (if is_in "-I" args then drive_report else "", ""),
  suc s,
)

abbrev erase_failed : Error
erase_failed =
    rest_error_init ErrorClass.block_device_erase_error
      "Erase failed for device /dev/sda: Unexpected error"

failed_erase : ata_erase failing_drive "/dev/sda" 0 ≡ (err erase_failed, 5)
unfolding ata_erase is_subclass contains split_lines text_before tabs_to_spaces strip
    rest_error_init str process_execution_error format
failed_erase = refl

abbrev disk : String → ℕ → BlockDevice
disk name size = record { name = name; model = ""; size = size; rotational = true }

guess_root_disk-Guessed_example :
    Guessed 4
      (disk "/dev/sda" 9 ∷ disk "/dev/sdb" 2 ∷ disk "/dev/sdc" 5 ∷ [])
      (guess_root_disk (disk "/dev/sda" 9 ∷ disk "/dev/sdb" 2 ∷ disk "/dev/sdc" 5 ∷ []) 4)
guess_root_disk-Guessed_example =
    guess_root_disk-Guessed 4 (disk "/dev/sda" 9 ∷ disk "/dev/sdb" 2 ∷ disk "/dev/sdc" 5 ∷ [])

-- The device is there at the third attempt.
abbrev late : Exec ℕ String
late s = (if s == 2 then ok "/dev/sda" else err (no_device 4), suc s)

wait_for_disks-Waited_example : Waited late (λ s. s) 3 0 (wait_for_disks late (λ s. s) 3 0)
wait_for_disks-Waited_example = wait_for_disks-Waited late (λ s. s) 3 0

abbrev two_disks : Exec ℕ (List BlockDevice)
two_disks s = (ok (disk "/dev/sda" 9 ∷ disk "/dev/fd0" 2 ∷ []), s)

abbrev label : Exec ℕ (Option String)
label s = (ok (some "/dev/fd0"), s)

abbrev destroy : String → String → Exec ℕ (Unit {0})
destroy name uuid s = (ok tt, suc s)

all_wiped : erase_devices_metadata good_drive label destroy node two_disks 0 ≡ (ok tt, 1)
unfolding erase_devices_metadata
all_wiped = refl

erase_devices_metadata-Wiped_example :
    (devices : List BlockDevice) × (u : ℕ) × (two_disks 0 ≡ (ok devices, u))
    × All (Wiped good_drive label destroy node) devices
erase_devices_metadata-Wiped_example =
    erase_devices_metadata-Wiped good_drive label destroy node two_disks 0 1 all_wiped
