-- ===== src/IronicPythonAgent/Run.antt =====
-- agent.py: `IronicPythonAgent.run`.
pub mod Prepared
pub mod Ran
use test_frerfhrebfd.Common.{
  ℕ, String, Bool, true, false, Option, none, some, List, [], ◌∷◌, not, ltb, str_eq, ◌==◌,
  if◌then◌else◌,
}
use test_frerfhrebfd.Errors.Hierarchy.{ErrorClass}
use test_frerfhrebfd.Errors.Build.{Error, foreign_error}
use test_frerfhrebfd.Exec.{Result, ok, err, Exec, pure, raise, gets, modify, ◌>>=◌, ◌>>◌}
use test_frerfhrebfd.Value.{Value, Values, Fields, lookup as field_of}
use test_frerfhrebfd.Hardware.Types.{Node}
use test_frerfhrebfd.IronicPythonAgent.{
  Content, Surroundings, AgentSettings, Service, ServerRequest, in_world, given, reports,
}
use test_frerfhrebfd.IronicPythonAgent.Interfaces.{wait_for_interface}
use test_frerfhrebfd.IronicPythonAgent.Serve.{Ending, serve_ipa_api, stop_heartbeater}

-- Whether Python takes a value as true.
abbrev pub is_true : Value → Bool
is_true Value.null = false
is_true (Value.flag b) = b
is_true (Value.number n) = not (n == 0)
is_true (Value.text s) = not (str_eq s "")
is_true (Value.list Values.nil) = false
is_true (Value.list (Values.cons v vs)) = true
is_true (Value.dict Fields.end) = false
is_true (Value.dict (Fields.field k v fields)) = true

abbrev pub has_true : String → Fields → Bool
has_true key config = elim (field_of key config) [ none ↦ false | some v ↦ is_true v ]

-- `d[key]`
unfoldable pub item_or_error : {A : Type 0} → String → Option A → Result A
item_or_error key none = err (foreign_error ErrorClass.key_error key)
item_or_error key (some a) = ok a

module _ {W : Type 0} where
  abbrev pub lift : {A : Type 0} → Result A → Exec W A
  lift r w = (r, w)

  -- Every option of the configuration is set.
  unfoldable pub set_all : (String → Value → Exec W (Unit {0})) → Fields → Exec W (Unit {0})
  unfolding ◌>>=◌
  set_all set Fields.end = pure tt
  set_all set (Fields.field opt val fields) = do set opt val; set_all set fields

module _ {W : Type 0} (around : Surroundings W) (settings : AgentSettings) where
  unfoldable pub update_config : Fields → Exec W (Unit {0})
  unfolding set_all ◌>>=◌
  update_config config = do
    (if has_true "metrics" config then set_all around.set_metrics config else pure tt)
    (if has_true "metrics_statsd" config then set_all around.set_metrics_statsd config else pure tt)

  unfoldable pub inspect_if : Exec W (Option String)
  inspect_if = if given settings.inspection_callback_url then around.inspect else pure none

  unfoldable pub look_up_node : Option String → Exec W Content
  unfolding wait_for_interface ◌>>=◌
  look_up_node uuid = do
    outcome ← wait_for_interface around
    hardware_info ← around.list_hardware_info
    around.lookup_node hardware_info settings.lookup_timeout settings.lookup_interval uuid

  abbrev pub assign_node : Node → Service W → Service W
  assign_node node s = record s { node = some node }

  abbrev pub set_timeout : Value → Service W → Service W
  set_timeout heartbeat_timeout s = record s { heartbeat_timeout = some heartbeat_timeout }

  -- The node is kept and cached; the message in between reads its UUID.
  unfoldable pub keep_node : Content → Exec (Service W) (Unit {0})
  unfolding item_or_error ◌>>=◌
  keep_node content = do
    node ← lift (item_or_error "node" content.node)
    modify (assign_node node)
    uuid ← lift (item_or_error "uuid" node.uuid)
    in_world (around.cache_node node)

  unfoldable pub keep_config : Content → Exec (Service W) (Unit {0})
  unfolding item_or_error update_config ◌>>=◌
  keep_config content = do
    config ← lift (item_or_error "config" content.config)
    heartbeat_timeout ←
        lift (item_or_error "heartbeat_timeout" (field_of "heartbeat_timeout" config))
    modify (set_timeout heartbeat_timeout)
    in_world (update_config config)

  unfoldable pub keep_content : Content → Exec (Service W) (Unit {0})
  unfolding keep_node keep_config ◌>>=◌
  keep_content content = do keep_node content; keep_config content

  unfoldable pub look_up_and_keep : Option String → Exec (Service W) (Unit {0})
  unfolding look_up_node keep_content ◌>>=◌
  look_up_and_keep uuid = do content ← in_world (look_up_node uuid); keep_content content

  -- Inspection comes before the lookup, and the lookup is made where Ironic has an address.
  unfoldable pub prepare_node : Exec (Service W) (Unit {0})
  unfolding inspect_if look_up_and_keep ◌>>=◌
  prepare_node = do
    uuid ← in_world inspect_if
    (if given settings.api_url then look_up_and_keep uuid else pure tt)

  unfoldable pub delay : Exec W (Unit {0})
  delay w =
      if ltb 0 settings.hardware_initialization_delay
      then (ok tt, around.sleep settings.hardware_initialization_delay w)
      else (ok tt, w)

  unfoldable pub prepare_if : Exec (Service W) (Unit {0})
  unfolding prepare_node
  prepare_if = if not settings.standalone then prepare_node else pure tt

  -- `run`; `started_at` is not kept
  unfoldable pub run_agent : List (ServerRequest W) → Exec (Service W) Ending
  unfolding delay prepare_if serve_ipa_api stop_heartbeater ◌>>=◌
  run_agent requests = do
    in_world around.load_managers
    in_world delay
    prepare_if
    served ← serve_ipa_api around settings requests
    stop_heartbeater around settings served
