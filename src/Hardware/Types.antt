-- ===== src/Hardware/Types.antt =====
-- hardware.py: the node, the clean steps and the hardware managers, as the agent sees them.
use test_frerfhrebfd.Common.{ℕ, String, Bool, Option, List}
use test_frerfhrebfd.Exec.{Exec}

-- The fields of an Ironic node that the agent reads; any of them may be missing.
pub record Node : Type 0 where
  pub uuid : Option String
  pub root_device : Option (List (String × String))
  pub agent_enable_ata_secure_erase : Option Bool
  pub agent_continue_if_ata_erase_failed : Option Bool
  pub agent_erase_devices_iterations : Option ℕ
  pub agent_erase_devices_zeroize : Option Bool

-- The global `NODE`, and what lies outside the agent.
pub record World (E : Type 0) : Type 0 where
  pub node : Option Node
  pub env : E

pub record BlockDevice : Type 0 where
  pub name : String
  pub model : String
  pub size : ℕ
  pub rotational : Bool

pub record CleanStep : Type 0 where
  pub step : String
  pub priority : ℕ
  pub interface : String
  pub reboot_requested : Bool
  pub abortable : Bool

-- `get_version`: the name and the version of a hardware manager
pub record Version : Type 0 where
  pub name : String
  pub version : String

-- A hardware manager: a method is `none` where the class lacks it. The support level is an
-- integer that is not negative.
pub record Manager (E V : Type 0) : Type 0 where
  pub class_name : String
  pub evaluate_hardware_support : ℕ
  pub wait_for_disks : Option (Exec (World E) (Unit {0}))
  pub get_os_install_device : Option (Exec (World E) String)
  pub get_version : Option (Exec (World E) Version)
  pub get_clean_steps : Option (Node → Exec (World E) (List CleanStep))
  pub erase_block_device : Option (Node → BlockDevice → Exec (World E) V)
  pub clean_step : String → Option (Node → Exec (World E) V)

-- The module's globals: `_global_managers` (empty where it is `None`) and `NODE`.
pub record Hardware (E V : Type 0) : Type 0 where
  pub global_managers : List (Manager E V)
  pub world : World E
