-- ===== src/IronicPythonAgent.antt =====
-- agent.py: `IronicPythonAgent.run` and what it calls. `Surroundings` holds the calls of other
-- modules, of the clock and of the server; the advertised address is a part of its own.
pub mod Interfaces
pub mod Heartbeater
pub mod Serve
pub mod Run
use test_frerfhrebfd.Common.{
  ℕ, String, Bool, true, false, Option, none, some, List, str_eq, not, ◌&&◌,
}
use test_frerfhrebfd.Errors.Hierarchy.{ErrorClass}
use test_frerfhrebfd.Errors.Build.{Error, rest_error_init}
use test_frerfhrebfd.Exec.{Result, ok, err, Exec}
use test_frerfhrebfd.Value.{Value, Fields}
use test_frerfhrebfd.Hardware.Types.{Node}

-- What the lookup returns: `content['node']` and `content['config']`.
pub record Content : Type 0 where
  pub node : Option Node
  pub config : Option Fields

pub record Surroundings (W : Type 0) : Type 0 where
  -- `time.time()`, in seconds
  pub time : W → ℕ
  pub sleep : ℕ → W → W
  pub load_managers : Exec W (Unit {0})
  pub inspect : Exec W (Option String)
  -- the MAC addresses of the interfaces
  pub list_network_interfaces : Exec W (List (Option String))
  pub list_hardware_info : Exec W Fields
  pub lookup_node : Fields → ℕ → ℕ → Option String → Exec W Content
  pub cache_node : Node → Exec W (Unit {0})
  -- `setattr(cfg.CONF.metrics, opt, val)`, and the same of `metrics_statsd`
  pub set_metrics : String → Value → Exec W (Unit {0})
  pub set_metrics_statsd : String → Value → Exec W (Unit {0})
  -- `self.heartbeater.writer is not None`: the heartbeater's thread opens its pipe after it has
  -- set the advertised address, and closes it when it ends
  pub has_writer : W → Bool
  -- a server that listens
  pub make_server : Exec W (Unit {0})

-- A request, as the server handles it; it says whether a command has ended the service.
abbrev pub ServerRequest : Type 0 → Type 0
ServerRequest W = Exec W Bool

-- The interpreter: the agent is tested with both.
pub data Python : Type 0 where
  python2 python3 : Python

pub record AgentSettings : Type 0 where
  pub python : Python
  pub standalone : Bool
  pub api_url : Option String
  pub inspection_callback_url : Option String
  pub hardware_initialization_delay : ℕ
  pub lookup_timeout : ℕ
  pub lookup_interval : ℕ

pub record Service (W : Type 0) : Type 0 where
  pub node : Option Node
  pub heartbeat_timeout : Option Value
  pub serve_api : Bool
  -- the heartbeater's thread has been started and not been stopped
  pub is_heartbeating : Bool
  pub world : W

abbrev pub given : Option String → Bool
given none = false
given (some s) = not (str_eq s "")

-- `not self.standalone and self.api_url`
abbrev pub reports : AgentSettings → Bool
reports settings = not settings.standalone && given settings.api_url

-- `get_node_uuid`
unfoldable pub node_uuid : Option Node → Result String
node_uuid none = err (rest_error_init ErrorClass.unknown_node_error "")
node_uuid (some node) = elim node.uuid [
  | none ↦ err (rest_error_init ErrorClass.unknown_node_error "")
  | some uuid ↦ ok uuid
]

module _ {W : Type 0} where
  abbrev pub in_world : {A : Type 0} → Exec W A → Exec (Service W) A
  in_world m s = let (r, w) = m s.world in (r, record s { world = w })
