-- ===== src/Extensions/Iscsi.antt =====
-- extensions/iscsi.py. `Targets` holds the calls of rtslib, which configures Linux-IO in the kernel,
-- the commands, and the calls of other modules of the agent.
pub mod Start
pub mod CleanUp
use test_frerfhrebfd.Common.{ℕ, String, Option, none, some, List, [], ◌∷◌, ◌||◌, Bool}
use test_frerfhrebfd.Errors.Hierarchy.{ErrorClass, is_subclass}
use test_frerfhrebfd.Errors.Build.{Error}
use test_frerfhrebfd.Exec.{Exec}

-- A storage object of Linux-IO, and a target, by what is read of them.
pub record Storage : Type 0 where
  pub name : String
  pub udev_path : String

pub record Root : Type 0 where
  pub storage_objects : List Storage
  pub targets : List String

pub record Targets (W : Type 0) : Type 0 where
  pub execute : List String → ℕ → Exec W String
  pub generate_uuid : Exec W String
  pub get_os_install_device : Exec W String
  pub get_node_uuid : Exec W String
  pub destroy_disk_metadata : String → String → Exec W (Unit {0})
  -- `rtslib_fb.RTSRoot()`
  pub rts_root : Exec W Root
  pub dump : Exec W (Unit {0})
  pub block_storage_object : String → String → Exec W (Unit {0})
  pub create_target : String → Exec W (Unit {0})
  pub create_tpg : String → Exec W (Unit {0})
  pub set_attribute : String → String → Exec W (Unit {0})
  pub create_lun : String → ℕ → Exec W (Unit {0})
  pub enable_tpg : Exec W (Unit {0})
  -- `netutils.wrap_ipv6(netutils.get_wildcard_address())`
  pub listen_ip : Exec W String
  pub network_portal : String → ℕ → Exec W (Unit {0})
  pub delete_target : String → Exec W (Unit {0})
  pub delete_storage : Storage → Exec W (Unit {0})

-- `except (EnvironmentError, rtslib_fb.RTSLibError)`
unfoldable pub is_unavailable : Error → Bool
is_unavailable e =
    is_subclass e.class ErrorClass.os_error || is_subclass e.class ErrorClass.rtslib_error
