-- ===== src/Samples/Service.antt =====
-- agent.py: an agent whose network comes up after ten seconds; of three requests the second ends the
-- service. The world is the clock.
use test_frerfhrebfd.Common.{
  ℕ, ◌+◌, Bool, true, false, none, some, List, [], ◌∷◌, ltb, ◌==◌, if◌then◌else◌, ◌≡◌, refl, arith,
}
use test_frerfhrebfd.Errors.Hierarchy.{ErrorClass}
use test_frerfhrebfd.Errors.Build.{foreign_error}
use test_frerfhrebfd.Exec.{ok, err, Exec}
use test_frerfhrebfd.Value.{Value, Fields}
use test_frerfhrebfd.Hardware.Types.{Node}
use test_frerfhrebfd.IronicPythonAgent.{
  Content, Surroundings, python2, python3, AgentSettings, Service, ServerRequest,
}
use test_frerfhrebfd.IronicPythonAgent.Interfaces.{WaitOutcome, wait_for_interface}
use test_frerfhrebfd.IronicPythonAgent.Interfaces.Waited.{
  Sleeps, Advances, Ended, wait_for_interface-Ended,
}
use test_frerfhrebfd.IronicPythonAgent.Serve.{Ending}
use test_frerfhrebfd.IronicPythonAgent.Heartbeater.{
  Heart, Wake, Beating, stopped, polling, run_heartbeater, is_stop,
}
use test_frerfhrebfd.IronicPythonAgent.Heartbeater.Beats.{
  Beats, InBounds, heartbeats, run_heartbeater-Beats, run_heartbeater_python3,
}
use test_frerfhrebfd.IronicPythonAgent.Run.{run_agent}
use test_frerfhrebfd.IronicPythonAgent.Run.Ran.{Ran, run_agent-Ran}

abbrev node : Node
node = record {
  uuid = some "n";
  root_device = none;
  agent_enable_ata_secure_erase = none;
  agent_continue_if_ata_erase_failed = none;
  agent_erase_devices_iterations = none;
  agent_erase_devices_zeroize = none;
}

abbrev content : Content
content = record {
  node = some node;
  config = some (Fields.field "heartbeat_timeout" (Value.number 300) Fields.end);
}

abbrev done : Exec ℕ (Unit {0})
done s = (ok tt, s)

abbrev around : Surroundings ℕ
around = record {
  time = λ s. s;
  sleep = λ seconds s. s + seconds;
  load_managers = done;
  inspect = λ s. (ok none, s);
  list_network_interfaces = λ s. (ok (if ltb s 10 then none ∷ [] else none ∷ some "aa:bb" ∷ []), s);
  list_hardware_info = λ s. (ok Fields.end, s);
  lookup_node = λ info timeout interval uuid s. (ok content, s + 1);
  cache_node = λ n. done;
  set_metrics = λ opt val. done;
  set_metrics_statsd = λ opt val. done;
  has_writer = λ s. true;
  make_server = done;
}

abbrev settings : AgentSettings
settings = record {
  python = python2;
  standalone = false;
  api_url = some "http://ironic";
  inspection_callback_url = none;
  hardware_initialization_delay = 2;
  lookup_timeout = 300;
  lookup_interval = 1;
}

abbrev handled : Bool → ServerRequest ℕ
handled ends s = (ok ends, s + 1)

abbrev requests : List (ServerRequest ℕ)
requests = handled false ∷ handled true ∷ handled false ∷ []

abbrev opened : Service ℕ
opened = record {
  node = none;
  heartbeat_timeout = none;
  serve_api = true;
  is_heartbeating = false;
  world = 0;
}

abbrev end : Service ℕ
end = record {
  node = some node;
  heartbeat_timeout = some (Value.number 300);
  serve_api = false;
  is_heartbeating = false;
  world = 15;
}

wait_run : wait_for_interface around 0 ≡ (ok WaitOutcome.up, 10)
unfolding wait_for_interface
wait_run = refl

sleeps : Sleeps around
sleeps seconds w = omega arith

advances : Advances around
advances interfaces w t h = ground arith

wait_for_interface-Ended_example : Ended around 60 WaitOutcome.up 10
wait_for_interface-Ended_example =
    wait_for_interface-Ended around sleeps advances WaitOutcome.up 0 10 wait_run

service_run : run_agent around settings requests opened ≡ (ok Ending.ended, end)
unfolding run_agent
service_run = refl

run_agent-Ran_example : Ran around settings requests opened Ending.ended end
run_agent-Ran_example =
    run_agent-Ran around settings requests opened end Ending.ended refl refl service_run

-- The second of three heartbeats fails; then the byte of a stop comes.
abbrev sent : Exec ℕ (Unit {0})
sent s = (if s == 1 then err (foreign_error ErrorClass.os_error "send") else ok tt, s + 1)

abbrev wakes : List Wake
wakes = Wake.timed_out ∷ Wake.timed_out ∷ Wake.written "a" ∷ Wake.timed_out ∷ []

abbrev heart : Heart ℕ
heart = record { error_delay = 100000; world = 0 }

heart_run :
    run_heartbeater python2 done sent wakes heart
    ≡ (ok stopped, record { error_delay = 270000; world = 2 })
unfolding run_heartbeater is_stop
heart_run = refl

run_heartbeater-Beats_example :
    (out : Beating) × (t : Heart ℕ) × (run_heartbeater python2 done sent wakes heart ≡ (ok out, t))
    × Beats sent python2 wakes heart out t
    × InBounds t
run_heartbeater-Beats_example =
    run_heartbeater-Beats done sent python2 wakes heart 0 (omega arith, omega arith) refl

run_heartbeater_python3_example :
    run_heartbeater python3 done sent wakes heart ≡ (ok polling, heartbeats sent 4 heart)
run_heartbeater_python3_example = run_heartbeater_python3 done sent wakes heart 0 refl
