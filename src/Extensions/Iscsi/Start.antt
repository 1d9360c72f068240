-- ===== src/Extensions/Iscsi/Start.antt =====
-- extensions/iscsi.py: `start_iscsi_target`.
pub mod Exposed
use test_frerfhrebfd.Common.{
  ℕ, String, Bool, true, false, Option, none, some, List, [], ◌∷◌, not, format, show, ◌==◌,
  if◌then◌else◌,
}
use test_frerfhrebfd.Errors.Hierarchy.{ErrorClass, is_subclass}
use test_frerfhrebfd.Errors.Build.{Error, Extra, iscsi_error_init, iscsi_command_error, str}
use test_frerfhrebfd.Exec.{Result, ok, err, Exec, pure, raise, try_except, except, ◌>>=◌, ◌>>◌}
use test_frerfhrebfd.Extensions.Iscsi.{Root, Targets}
use test_frerfhrebfd.Extensions.Iscsi.CleanUp.{get_root}

abbrev pub default_iscsi_portal_port : ℕ
default_iscsi_portal_port = 3260

-- The number that an error carries: the exit code of a command, or the `errno` of the system.
number_of : Extra → ℕ
number_of (Extra.process_output number stdout stderr) = number
number_of _ = 0

stdout_of : Extra → String
stdout_of (Extra.process_output number stdout stderr) = stdout
stdout_of _ = ""

stderr_of : Extra → String
stderr_of (Extra.process_output number stdout stderr) = stderr
stderr_of _ = ""

-- The error of `_execute`. Of an error of the system the text stands in place of the message.
unfoldable pub command_failed : String → Error → Error
unfolding number_of stdout_of stderr_of
command_failed error_msg e =
    if is_subclass e.class ErrorClass.process_execution_error
    then iscsi_command_error error_msg (number_of e.extra) (stdout_of e.extra) (stderr_of e.extra)
    else if is_subclass e.class ErrorClass.os_error
    then iscsi_command_error (str e) (number_of e.extra) "None" "None"
    else e

unfoldable pub create_failed : Error → Error
create_failed exc =
    iscsi_error_init ErrorClass.iscsi_error (format ("Failed to create a target: " ∷ str exc ∷ []))

unfoldable pub publish_failed : Error → Error
publish_failed exc =
    iscsi_error_init ErrorClass.iscsi_error (format ("Failed to publish a target: " ∷ str exc ∷ []))

abbrev pub tgtadm : String → List String → List String
tgtadm mode args = "tgtadm" ∷ "--lld" ∷ "iscsi" ∷ "--mode" ∷ mode ∷ "--op" ∷ args

abbrev pub or_default : Option ℕ → ℕ
or_default none = default_iscsi_portal_port
or_default (some portal_port) = portal_port

module _ {W : Type 0} (targets : Targets W) where
  -- `_execute`
  unfoldable pub execute_cmd : List String → String → ℕ → Exec W (Unit {0})
  unfolding command_failed try_except ◌>>=◌
  execute_cmd cmd error_msg attempts =
      try_except (do out ← targets.execute cmd attempts; pure tt)
        (λ e. raise (command_failed error_msg e))

  -- `_wait_for_tgtd`, with its ten attempts
  unfoldable pub wait_for_tgtd : Exec W (Unit {0})
  unfolding execute_cmd
  wait_for_tgtd = execute_cmd (tgtadm "target" ("show" ∷ [])) "ISCSI daemon didn't initialize" 10

  -- The daemon makes the portal of the default port itself.
  unfoldable pub add_portal : ℕ → Exec W (Unit {0})
  unfolding execute_cmd
  add_portal portal_port =
      if not (portal_port == default_iscsi_portal_port)
      then execute_cmd
          (tgtadm "portal"
            ("new" ∷ "--param" ∷ format ("portal=0.0.0.0:" ∷ show portal_port ∷ []) ∷ []))
          (format ("Error when adding a new portal with portal_port " ∷ show portal_port ∷ [])) 1
      else pure tt

  -- `_start_tgtd`
  unfoldable pub start_tgtd : String → ℕ → String → Exec W (Unit {0})
  unfolding execute_cmd wait_for_tgtd add_portal ◌>>=◌
  start_tgtd iqn portal_port device = do
    execute_cmd ("tgtd" ∷ []) "Unable to start the ISCSI daemon" 1
    wait_for_tgtd
    add_portal portal_port
    execute_cmd (tgtadm "target" ("new" ∷ "--tid" ∷ "1" ∷ "--targetname" ∷ iqn ∷ []))
        (format ("Error when adding a new target for iqn " ∷ iqn ∷ [])) 1
    execute_cmd
        (tgtadm "logicalunit"
          ("new" ∷ "--tid" ∷ "1" ∷ "--lun" ∷ "1" ∷ "--backing-store" ∷ device ∷ []))
        (format ("Error when adding a new logical unit for iqn " ∷ iqn ∷ [])) 1
    execute_cmd (tgtadm "target" ("bind" ∷ "--tid" ∷ "1" ∷ "--initiator-address" ∷ "ALL" ∷ []))
        (format
          ("Error when enabling the target to accept the specific initiators for iqn " ∷ iqn ∷ []))
        1

  unfoldable pub create_lio : String → String → Exec W (Unit {0})
  unfolding ◌>>=◌
  create_lio iqn device = do
    targets.block_storage_object iqn device
    targets.create_target iqn
    targets.create_tpg iqn
    targets.set_attribute "authentication" "0"
    targets.set_attribute "demo_mode_write_protect" "0"
    targets.set_attribute "generate_node_acls" "1"
    targets.create_lun iqn 1
    targets.enable_tpg

  unfoldable pub publish_lio : ℕ → Exec W (Unit {0})
  unfolding ◌>>=◌
  publish_lio portal_port = do
    listen_ip ← targets.listen_ip
    targets.network_portal listen_ip portal_port

  -- `_start_lio`
  unfoldable pub start_lio : String → ℕ → String → Exec W (Unit {0})
  unfolding create_lio publish_lio create_failed publish_failed except ◌>>=◌
  start_lio iqn portal_port device = do
    except ErrorClass.rtslib_error (create_lio iqn device) (λ exc. raise (create_failed exc))
    except ErrorClass.rtslib_error (publish_lio portal_port) (λ exc. raise (publish_failed exc))

  unfoldable pub iqn_or_new : Option String → Exec W String
  unfolding ◌>>=◌
  iqn_or_new none = do
    uuid ← targets.generate_uuid
    pure (format ("iqn.2008-10.org.openstack:" ∷ uuid ∷ []))
  iqn_or_new (some iqn) = pure iqn

  unfoldable pub wipe_if : Bool → String → Exec W (Unit {0})
  unfolding ◌>>=◌
  wipe_if wipe_disk_metadata device =
      if wipe_disk_metadata
      then (do node_uuid ← targets.get_node_uuid; targets.destroy_disk_metadata device node_uuid)
      else pure tt

  -- Linux-IO where it is available, and otherwise TGT.
  unfoldable pub start_with : String → ℕ → String → Option Root → Exec W (Unit {0})
  unfolding start_tgtd start_lio ◌>>=◌
  start_with iqn portal_port device none = start_tgtd iqn portal_port device
  start_with iqn portal_port device (some root) = do start_lio iqn portal_port device; targets.dump

  -- `start_iscsi_target`; of the dictionary that is returned, the value of "iscsi_target_iqn"
  unfoldable pub start_iscsi_target : Option String → Bool → Option ℕ → Exec W String
  unfolding iqn_or_new wipe_if start_with get_root ◌>>=◌
  start_iscsi_target iqn wipe_disk_metadata portal_port = do
    target_iqn ← iqn_or_new iqn
    device ← targets.get_os_install_device
    wipe_if wipe_disk_metadata device
    root ← get_root targets
    start_with target_iqn (or_default portal_port) device root
    pure target_iqn
