-- ===== src/IronicPythonAgent/Serve.antt =====
-- agent.py: `serve_ipa_api`, on the requests that come one after the other.
pub mod Handled
use test_frerfhrebfd.Common.{String, Bool, true, false, List, [], ◌∷◌, not, format, if◌then◌else◌}
use test_frerfhrebfd.Errors.Hierarchy.{ErrorClass}
use test_frerfhrebfd.Errors.Build.{Error, rest_error_init, str}
use test_frerfhrebfd.Exec.{
  Result, ok, err, Exec, pure, raise, gets, modify, try_except, ◌>>=◌, ◌>>◌,
}
use test_frerfhrebfd.IronicPythonAgent.Heartbeater.{is_stop}
use test_frerfhrebfd.IronicPythonAgent.{
  Surroundings, AgentSettings, Service, ServerRequest, in_world, reports,
}

-- The service has been shut down, or it waits for a further request.
pub data Served : Type 0 where
  shut_down waiting : Served

-- `run` has ended, its server waits for a further request, or its thread waits in `join` for one
-- that does not end.
pub data Ending : Type 0 where
  ended serving joining : Ending

unfoldable pub server_failed : Error → Error
server_failed e =
    rest_error_init ErrorClass.ironic_api_error
      (format ("Failed due to an unknown exception. Error " ∷ str e ∷ []))

module _ {W : Type 0} where
  -- One request. A command that ends the service clears `serve_api`.
  unfoldable pub handle_request : ServerRequest W → Exec (Service W) (Unit {0})
  unfolding server_failed try_except ◌>>=◌
  handle_request request = do
    ends ← in_world (try_except request (λ e. raise (server_failed e)))
    (if ends then modify (λ s. record s { serve_api = false }) else pure tt)

  unfoldable pub serve_round : ServerRequest W → Exec (Service W) Served → Exec (Service W) Served
  unfolding handle_request ◌>>=◌
  serve_round request rest = do handle_request request; rest

  -- `while self.serve_api`
  unfoldable pub serve : List (ServerRequest W) → Exec (Service W) Served
  unfolding serve_round
  serve [] s = (ok (if s.serve_api then Served.waiting else Served.shut_down), s)
  serve (request ∷ requests) s =
      let rest = serve requests in
      if s.serve_api then serve_round request rest s else (ok Served.shut_down, s)

  -- Heartbeats begin when the server listens.
  unfoldable pub start_heartbeater : AgentSettings → Exec (Service W) (Unit {0})
  start_heartbeater settings =
      if reports settings then modify (λ s. record s { is_heartbeating = true }) else pure tt

module _ {W : Type 0} (around : Surroundings W) where
  -- `serve_ipa_api`
  unfoldable pub serve_ipa_api : AgentSettings → List (ServerRequest W) → Exec (Service W) Served
  unfolding start_heartbeater serve ◌>>=◌
  serve_ipa_api settings requests = do
    in_world around.make_server
    start_heartbeater settings
    serve requests

  abbrev pub mark_stopped : Service W → Service W
  mark_stopped s = record s { is_heartbeating = false }

  -- The byte of a stop is written, and the thread is waited for: it ends if it takes the byte.
  unfoldable pub write_stop : AgentSettings → Exec (Service W) Ending
  unfolding is_stop ◌>>=◌
  write_stop settings =
      if is_stop settings.python "a"
      then (do modify mark_stopped; pure Ending.ended)
      else pure Ending.joining

  -- `self.heartbeater.stop()`: without a pipe it does nothing
  unfoldable pub stop_thread : AgentSettings → Exec (Service W) Ending
  unfolding write_stop ◌>>=◌
  stop_thread settings = do
    has_writer ← gets (λ s. around.has_writer s.world)
    (if has_writer then write_stop settings else pure Ending.ended)

  unfoldable pub stop_heartbeater : AgentSettings → Served → Exec (Service W) Ending
  unfolding stop_thread
  stop_heartbeater settings Served.waiting = pure Ending.serving
  stop_heartbeater settings Served.shut_down =
      if reports settings then stop_thread settings else pure Ending.ended
