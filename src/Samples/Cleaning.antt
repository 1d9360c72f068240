-- ===== src/Samples/Cleaning.antt =====
-- extensions/clean.py with the steps of two managers.
use test_frerfhrebfd.Common.{ℕ, String, ◌≡◌, refl, List, [], ◌∷◌, true, false, some, Among, All}
use test_frerfhrebfd.Exec.{ok}
use test_frerfhrebfd.Hardware.Types.{CleanStep}
use test_frerfhrebfd.Hardware.Sorting.{sorted}
use test_frerfhrebfd.Extensions.Clean.Dedup.{Candidate, winning_step, deduplicate_steps}
use test_frerfhrebfd.Extensions.Clean.Dedup.Winner.{Outranks, winning_step-Outranks}
use test_frerfhrebfd.Extensions.Clean.Dedup.Groups.{candidates_of, named}
use test_frerfhrebfd.Extensions.Clean.Dedup.Once.{steps_named, chosen, deduplicate_steps-chosen}

abbrev erase : ℕ → CleanStep
erase priority = record {
  step = "erase_devices";
  priority = priority;
  interface = "deploy";
  reboot_requested = false;
  abortable = true;
}

abbrev support : List (String × ℕ)
support = ("VendorHardwareManager", 3) ∷ ("GenericHardwareManager", 1) ∷ []

abbrev candidate_steps : List (String × List CleanStep)
candidate_steps =
    ("GenericHardwareManager", erase 20 ∷ [])
    ∷ ("VendorHardwareManager", erase 10 ∷ [])
    ∷ ("UnknownHardwareManager", erase 99 ∷ [])
    ∷ []

-- The support of the manager goes before the priority of the step.
vendor_wins :
    deduplicate_steps support candidate_steps ≡ ok (("VendorHardwareManager", erase 10 ∷ []) ∷ [])
unfolding deduplicate_steps sorted
vendor_wins = refl

deduplicate_steps-chosen_example :
    (d : List (String × List CleanStep)) × (deduplicate_steps support candidate_steps ≡ ok d)
    × (steps_named "erase_devices" d
        ≡ chosen (named "erase_devices" (candidates_of support candidate_steps)))
deduplicate_steps-chosen_example = deduplicate_steps-chosen support candidate_steps "erase_devices"

abbrev of_generic : Candidate
of_generic = record { step = erase 20; manager = "GenericHardwareManager"; support = 1 }

abbrev of_vendor : Candidate
of_vendor = record { step = erase 10; manager = "VendorHardwareManager"; support = 3 }

winning_step-Outranks_example :
    (w : Candidate) × (winning_step (of_generic ∷ of_vendor ∷ []) ≡ some w)
    × Among (of_generic ∷ of_vendor ∷ []) w
    × All (Outranks w) (of_generic ∷ of_vendor ∷ [])
winning_step-Outranks_example = winning_step-Outranks of_generic (of_vendor ∷ [])
