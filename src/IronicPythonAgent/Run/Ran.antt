-- ===== src/IronicPythonAgent/Run/Ran.antt =====
-- What `run` has done when it returns, or when it waits for a further request.
use test_frerfhrebfd.Common.{Bool, true, false, List, not, ◌&&◌, if◌then◌else◌, ◌≡◌, refl, arith}
use mathlib.Core.Path.{subst}
use test_frerfhrebfd.Exec.{ok, gets, modify}
use test_frerfhrebfd.Exec.Ensures.{
  Ensures, Ensures-pure, Ensures-if, Ensures-bind, Ensures-modify, Ensures-imp,
}
use test_frerfhrebfd.IronicPythonAgent.{
  Surroundings, AgentSettings, Service, ServerRequest, in_world, reports,
}
use test_frerfhrebfd.IronicPythonAgent.Serve.{
  Served, shut_down, waiting, Ending, ended, serving, joining, serve_ipa_api, start_heartbeater,
  mark_stopped, write_stop, stop_thread, stop_heartbeater,
}
use test_frerfhrebfd.IronicPythonAgent.Heartbeater.{is_stop}
use test_frerfhrebfd.IronicPythonAgent.Serve.Handled.{in_world-step, Handled, serve-Handled}
use test_frerfhrebfd.IronicPythonAgent.Run.{delay, prepare_if, run_agent}
use test_frerfhrebfd.IronicPythonAgent.Run.Prepared.{Prepared, prepare_if-Prepared, Prepared-keeps}

module _ {W : Type 0} (around : Surroundings W) (settings : AgentSettings) where
  -- How a run goes on after the server's loop, by whether the heartbeater has a pipe.
  abbrev pub ending : Served → Bool → Ending
  ending waiting has_writer = serving
  ending shut_down has_writer =
      if reports settings && (has_writer && not (is_stop settings.python "a"))
      then joining
      else ended

  -- The heartbeater's thread has been ended.
  abbrev pub is_stopped : Served → Bool → Bool
  is_stopped waiting has_writer = false
  is_stopped shut_down has_writer = has_writer && is_stop settings.python "a"

  -- One run from `s` to `t`.
  pub record Ran (requests : List (ServerRequest W)) (s : Service W) (out : Ending) (t : Service W)
      : Type 0 where
    pub loaded : W
    pub delayed : W
    pub prepared : Service W
    pub listening : W
    pub closing : Service W
    pub served : Served
    pub load : around.load_managers s.world ≡ (ok tt, loaded)
    pub pause : delay around settings loaded ≡ (ok tt, delayed)
    pub prepare_all : Prepared around settings (record s { world = delayed }) prepared
    pub listen : around.make_server prepared.world ≡ (ok tt, listening)
    pub handle :
        Handled requests
          (record prepared { is_heartbeating = reports settings; world = listening })
          served
          closing
    pub goes_on : out ≡ ending served (around.has_writer closing.world)
    pub beats : t ≡ record closing {
      is_heartbeating =
          reports settings && not (is_stopped served (around.has_writer closing.world));
    }

  start_heartbeater-reports :
      (s : Service W)
      → s.is_heartbeating ≡ false
      → Ensures
          (start_heartbeater settings)
          (λ x t. t ≡ record s { is_heartbeating = reports settings })
          s
  unfolding start_heartbeater
  start_heartbeater-reports s f =
      Ensures-if (reports settings) (λ b. Ensures-modify _ (ground arith))
        (λ b. Ensures-pure (ground arith))

  Handled-beats :
      (requests : List (ServerRequest W)) (s t : Service W) (served : Served)
      → Handled requests s served t
      → t.is_heartbeating ≡ s.is_heartbeating
  Handled-beats requests s t shut_down h = ground arith
  Handled-beats requests s t waiting h = ground arith

  abbrev Stopped : Served → Service W → Ending → Service W → Type 0
  Stopped served s out t =
      (out ≡ ending served (around.has_writer s.world))
      × (t ≡ record s {
        is_heartbeating = reports settings && not (is_stopped served (around.has_writer s.world));
      })

  stop_heartbeater-Stopped :
      (served : Served) (s : Service W)
      → s.is_heartbeating ≡ reports settings
      → Ensures (stop_heartbeater around settings served) (Stopped served s) s
  unfolding stop_heartbeater stop_thread write_stop
  stop_heartbeater-Stopped waiting s f = Ensures-pure (refl, ground arith)
  stop_heartbeater-Stopped shut_down s f =
      Ensures-if (reports settings)
        (λ b. Ensures-bind (gets (λ v. around.has_writer v.world)) _ (λ w u g.
          Ensures-if w
            (λ p.
              Ensures-if (is_stop settings.python "a")
                (λ c.
                  Ensures-bind (modify (mark_stopped around)) _
                    (λ x v h. Ensures-pure {a = ended} (ground arith, ground arith)))
                (λ c. Ensures-pure {a = joining} (ground arith, ground arith)))
            (λ p. Ensures-pure {a = ended} (ground arith, ground arith))))
        (λ b. Ensures-pure (ground arith, ground arith))

  abbrev Serving : List (ServerRequest W) → Service W → Served → Service W → Type 0
  Serving requests s served t =
      (listening : W) × (around.make_server s.world ≡ (ok tt, listening))
      × Handled requests (record s { is_heartbeating = reports settings; world = listening }) served
          t

  serve_ipa_api-Serving :
      (requests : List (ServerRequest W)) (s : Service W)
      → s.serve_api ≡ true
      → s.is_heartbeating ≡ false
      → Ensures (serve_ipa_api around settings requests) (Serving requests s) s
  unfolding serve_ipa_api
  serve_ipa_api-Serving requests s opened quiet =
      Ensures-bind (in_world around.make_server) _ (λ x u a.
        let (listen, same) = (in_world-step around.make_server s).ensured x u a in
        Ensures-bind (start_heartbeater settings) _ (λ y v b.
          let started = (start_heartbeater-reports u (ground arith)).ensured y v b in
          let from : v ≡ record s { is_heartbeating = reports settings; world = u.world } =
            ground arith in
          Ensures-imp (serve-Handled requests v (ground arith))
            (λ served t h. (u.world, listen, subst (λ c. Handled requests c served t) from h))))

  run_agent-Ensures :
      (requests : List (ServerRequest W)) (s : Service W)
      → s.serve_api ≡ true
      → s.is_heartbeating ≡ false
      → Ensures (run_agent around settings requests) (Ran requests s) s
  unfolding run_agent
  run_agent-Ensures requests s opened quiet =
      Ensures-bind (in_world around.load_managers) _ (λ x u a.
        let (load, i) = (in_world-step around.load_managers s).ensured x u a in
        Ensures-bind (in_world (delay around settings)) _ (λ y v b.
          let (pause, j) = (in_world-step (delay around settings) u).ensured y v b in
          let from : v ≡ record s { world = v.world } = ground arith in
          Ensures-bind (prepare_if around settings) _ (λ z w c.
            let p = (prepare_if-Prepared around settings v).ensured z w c in
            let (serves, beats) = Prepared-keeps around settings v w p in
            Ensures-bind (serve_ipa_api around settings requests) _ (λ served k d.
              let (listening, listen, handle) =
                (serve_ipa_api-Serving requests w (ground arith) (ground arith)).ensured served k
                  d in
              let beating = Handled-beats requests _ k served handle in
              Ensures-imp (stop_heartbeater-Stopped served k beating) (λ out t (goes_on, e).
                record {
                  loaded = u.world;
                  delayed = v.world;
                  prepared = w;
                  listening = listening;
                  closing = k;
                  served = served;
                  load = load;
                  pause = pause;
                  prepare_all = subst (λ c. Prepared around settings c w) from p;
                  listen = listen;
                  handle = handle;
                  goes_on = goes_on;
                  beats = e;
                })))))

  -- From an agent that is open and sends no heartbeats, `run` comes to its end, to the wait for a
  -- further request, or to a `join` only in this order: the managers are loaded; unless the agent stands
  -- alone, inspection has answered, if it has an address, and then, if Ironic has an address, the
  -- lookup has found a node with a UUID, which has been cached, and the timeout of the heartbeats;
  -- the server listens; and the requests are handled, all of them while it waits, and up to the
  -- first that ends the service where it does not. After that one `run` ends; but where heartbeats are
  -- sent and the heartbeater's pipe is open, it writes a stop and waits for the thread, which ends only
  -- if the byte is compared as equal. Heartbeats are sent from the opening of the server until the
  -- thread ends, and only to an Ironic with an address by an agent that does not stand alone.
  pub run_agent-Ran :
      (requests : List (ServerRequest W)) (s t : Service W) (out : Ending)
      → s.serve_api ≡ true
      → s.is_heartbeating ≡ false
      → run_agent around settings requests s ≡ (ok out, t)
      → Ran requests s out t
  run_agent-Ran requests s t out opened quiet h =
      (run_agent-Ensures requests s opened quiet).ensured out t h
