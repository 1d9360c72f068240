-- ===== src/Samples/Managers.antt =====
-- hardware.py with two managers. The world outside is a number that the methods count up.
use test_frerfhrebfd.Common.{
  ℕ, suc, String, ◌≡◌, ◌≢◌, refl, false, Option, none, some, List, [], ◌∷◌, get,
}
use text.Mathlib.Text.{◌==◌ as str_eq}
use test_frerfhrebfd.Extensions.Clean.Versions.{Versions, execute_clean_step}
use test_frerfhrebfd.Extensions.Clean.Versions.Checked.{Performed, execute_clean_step-Performed}
use mathlib.Core.Bool.{Bool, true, false}
use test_frerfhrebfd.Errors.Hierarchy.{ErrorClass, is_subclass}
use test_frerfhrebfd.Errors.Build.{Error, rest_error_init, hardware_manager_method_not_found}
use test_frerfhrebfd.Exec.{Result, ok, err, Exec}
use test_frerfhrebfd.Value.{Value}
use test_frerfhrebfd.Hardware.Types.{Node, World, Manager, Hardware, Version}
use test_frerfhrebfd.Hardware.Sorting.{sorted}
use test_frerfhrebfd.Hardware.Managers.{get_managers, compare_extensions}
use test_frerfhrebfd.Hardware.Managers.Order.{get_managers-Loaded, Loaded}
use test_frerfhrebfd.Hardware.Dispatch.{
  is_incompatible, try_managers, dispatch_to_managers, dispatch_to_all_managers,
}
use test_frerfhrebfd.Hardware.Dispatch.Answers.{Outcome, try_managers-Outcome}
use test_frerfhrebfd.Hardware.Dispatch.All.{Asked, last_of, dispatch_to_all-answers}
use test_frerfhrebfd.Hardware.Dispatch.Escapes.{dispatch-IsAnswer}

abbrev Outside : Type 0
Outside = World ℕ

abbrev tick : {A : Type 0} → Result A → Exec Outside A
tick r w = (r, record w { env = suc w.env })

abbrev incompatible : Error
incompatible = rest_error_init ErrorClass.incompatible_hardware_method_error ""

abbrev generic : Manager ℕ Value
generic = record {
  class_name = "GenericHardwareManager";
  evaluate_hardware_support = 1;
  wait_for_disks = some (tick (ok tt));
  get_os_install_device = some (tick (ok "/dev/sda"));
  get_version = some (tick (ok (record { name = "generic"; version = "1.1" })));
  get_clean_steps = some (λ node. tick (ok []));
  erase_block_device = none;
  clean_step = λ name. none;
}

abbrev vendor : Manager ℕ Value
vendor = record {
  class_name = "VendorHardwareManager";
  evaluate_hardware_support = 3;
  wait_for_disks = some (tick (err incompatible));
  get_os_install_device = none;
  get_version = some (tick (ok (record { name = "vendor"; version = "2" })));
  get_clean_steps = none;
  erase_block_device = none;
  clean_step = λ name. none;
}

abbrev found : List (Manager ℕ Value)
found = generic ∷ vendor ∷ []

abbrev node : Node
node = record {
  uuid = some "1be26c0b";
  root_device = none;
  agent_enable_ata_secure_erase = none;
  agent_continue_if_ata_erase_failed = none;
  agent_erase_devices_iterations = none;
  agent_erase_devices_zeroize = none;
}

abbrev outside : Outside
outside = record { node = none; env = 0 }

abbrev fresh : Hardware ℕ Value
fresh = record { global_managers = []; world = outside }

abbrev loaded : Hardware ℕ Value
loaded = record { global_managers = vendor ∷ generic ∷ []; world = outside }

load_order : get_managers found fresh ≡ (ok (vendor ∷ generic ∷ []), loaded)
unfolding get_managers sorted compare_extensions
load_order = refl

get_managers-Loaded_example : Loaded found (get_managers found fresh).0
get_managers-Loaded_example = get_managers-Loaded found fresh refl

abbrev waits : Manager ℕ Value → Option (Exec Outside (Unit {0}))
waits m = m.wait_for_disks

-- The vendor's refusal has changed the world before the generic manager answers.
fall_back :
    dispatch_to_managers found "wait_for_disks" waits fresh
    ≡ (ok tt, record loaded { world = record outside { env = 2 } })
unfolding dispatch_to_managers is_subclass rest_error_init sorted compare_extensions
fall_back = refl

try_managers-Outcome_example :
    Outcome waits "wait_for_disks"
      (vendor ∷ generic ∷ [])
      outside
      (try_managers "wait_for_disks" waits (vendor ∷ generic ∷ []) outside)
try_managers-Outcome_example =
    try_managers-Outcome waits "wait_for_disks" (vendor ∷ generic ∷ []) outside

abbrev versions : Manager ℕ Value → Option (Exec Outside Version)
versions m = m.get_version

abbrev both : List (String × Version)
both =
    ("VendorHardwareManager", record { name = "vendor"; version = "2" })
    ∷ ("GenericHardwareManager", record { name = "generic"; version = "1.1" })
    ∷ []

all_versions :
    dispatch_to_all_managers found "get_version" versions fresh
    ≡ (ok both, record loaded { world = record outside { env = 2 } })
unfolding dispatch_to_all_managers sorted compare_extensions
all_versions = refl

dispatch_to_all-answers_example :
    (answers : List (String × Version)) × (both ≢ [])
    × Asked versions (vendor ∷ generic ∷ []) loaded.world answers (record outside { env = 2 })
    × ((k : String) → get k both ≡ last_of versions k answers)
dispatch_to_all-answers_example =
    dispatch_to_all-answers found "get_version" versions fresh loaded
      (record loaded { world = record outside { env = 2 } }) (vendor ∷ generic ∷ []) both load_order
      all_versions

abbrev no_method : Error
no_method = hardware_manager_method_not_found "erase_devices"

abbrev lacks_method : Manager ℕ Value → Option (Exec Outside Value)
lacks_method m = none

dispatch-IsAnswer_example :
    (dispatch_to_managers found "erase_devices" lacks_method fresh ≡ (err no_method, loaded)
      → is_incompatible no_method ≡ false)
    × (dispatch_to_all_managers found "erase_devices" lacks_method fresh ≡ (err no_method, loaded)
        → is_incompatible no_method ≡ false)
dispatch-IsAnswer_example =
    dispatch-IsAnswer found "erase_devices" lacks_method fresh loaded no_method

abbrev erases : Bool → Option (Node → Exec Outside Value)
erases true = some (λ node. tick (ok (Value.text "erased")))
erases false = none

abbrev cleaner : Manager ℕ Value
cleaner = record generic { clean_step = λ name. erases (str_eq name "erase_devices") }

abbrev clean_version : Versions
clean_version = ("generic", "1.1") ∷ []

abbrev ready : Hardware ℕ Value
ready = record { global_managers = cleaner ∷ []; world = record { node = some node; env = 0 } }

abbrev cleaned : Hardware ℕ Value
cleaned = record ready { world = record { node = some node; env = 2 } }

abbrev show_versions : Versions → String
show_versions versions = ""

clean_step_runs :
    execute_clean_step [] show_versions (some "erase_devices") node (some clean_version) ready
    ≡ (ok (Value.text "erased"), cleaned)
unfolding execute_clean_step
clean_step_runs = refl

execute_clean_step-Performed_example :
    Performed [] show_versions
      (some "erase_devices")
      node
      (some clean_version)
      ready
      (Value.text "erased")
      cleaned
execute_clean_step-Performed_example =
    execute_clean_step-Performed [] show_versions (some "erase_devices") node (some clean_version)
      ready cleaned (Value.text "erased") clean_step_runs
