-- ===== src/Extensions/Flow/Ran.antt =====
-- What a flow that succeeds has run.
use test_frerfhrebfd.Common.{
  ℕ, String, ◌≡◌, refl, false, List, [], ◌∷◌, ◌++◌, get, Bool-cases, inl, inr, arith,
}
use test_frerfhrebfd.Exec.{ok}
use test_frerfhrebfd.Exec.Ensures.{Ensures, Ensures-pure, Ensures-call, Ensures-bind, Ensures-imp}
use test_frerfhrebfd.Value.{Fields}
use test_frerfhrebfd.Extensions.Base.Results.{CommandResult}
use test_frerfhrebfd.Extensions.Base.Commands.{Agent, execute_command, complete}
use test_frerfhrebfd.Extensions.Flow.{
  Task, is_failed, join, check_status, run_method, run_task, start_flow,
}

-- The commands of a flow in their order.
abbrev pub commands : List Task → Task
commands [] = []
commands (task ∷ flow) = task ++ commands flow

module _ {W : Type 0} (uuid : ℕ → String) where
  -- One after the other, each command is accepted and ends, and its result has not failed; nothing
  -- else happens.
  abbrev pub RanAll : Task → Agent W → Agent W → Type 0
  RanAll [] s t = s ≡ t
  RanAll ((method, params) ∷ task) s t =
      (result : CommandResult) × (u : Agent W) × (execute_command uuid method params s
        ≡ (ok result, u))
      × (is_failed (get result.id (complete result.id u).command_results) ≡ false)
      × RanAll task (complete result.id u) t

  RanAll-append :
      (task rest : Task) (s u t : Agent W)
      → RanAll task s u
      → RanAll rest u t
      → RanAll (task ++ rest) s t
  RanAll-append [] rest s u t e r = rw e r
  RanAll-append ((method, params) ∷ task) rest s u t (result, v, x, n, h) r =
      (result, v, x, n, RanAll-append task rest (complete result.id v) u t h r)

  check_status-Passed :
      (method id : String) (s : Agent W)
      → Ensures
          (check_status uuid method id)
          (λ x t. (is_failed (get id s.command_results) ≡ false) × (s ≡ t))
          s
  unfolding check_status
  check_status-Passed method id s = Ensures-call (λ x t h.
      elim (Bool-cases (is_failed (get id s.command_results))) [
        | inl b ↦ absurd (ground arith)
        | inr b ↦ (b, ground arith)
      ])

  joined : (id : String) (s : Agent W) → Ensures (join uuid id) (λ x t. complete id s ≡ t) s
  joined id s = Ensures-call (λ x t h. ground arith)

  run_method-RanAll :
      (method : String) (params : Fields) (s : Agent W)
      → Ensures (run_method uuid method params) (λ x. RanAll ((method, params) ∷ []) s) s
  unfolding run_method
  run_method-RanAll method params s =
      Ensures-bind (execute_command uuid method params) _ (λ result u h.
        Ensures-bind (join uuid result.id) _ (λ x v k.
          let e = (joined result.id u).ensured x v k in
          Ensures-imp (check_status-Passed method result.id v)
            (λ y t (n, same). (result, u, h, rw e n, rw e same))))

  run_task-RanAll :
      (task : Task) (s : Agent W) → Ensures (run_task uuid task) (λ x. RanAll task s) s
  unfolding run_task
  run_task-RanAll [] s = Ensures-pure refl
  run_task-RanAll ((method, params) ∷ task) s =
      Ensures-bind (run_method uuid method params) _ (λ x u h.
        Ensures-imp (run_task-RanAll task u) (λ y t.
          RanAll-append ((method, params) ∷ []) task s u t
            ((run_method-RanAll method params s).ensured x u h)))

  start_flow-Ensures :
      (flow : List Task) (s : Agent W)
      → Ensures (start_flow uuid flow) (λ x. RanAll (commands flow) s) s
  unfolding start_flow
  start_flow-Ensures [] s = Ensures-pure refl
  start_flow-Ensures (task ∷ flow) s = Ensures-bind (run_task uuid task) _ (λ x u h.
      Ensures-imp (start_flow-Ensures flow u)
        (λ y t. RanAll-append task (commands flow) s u t ((run_task-RanAll task s).ensured x u h)))

  -- A flow that succeeds has run all of its commands in their order, each after the end of the one
  -- before: each was accepted, its thread ended, and its result has not the status FAILED.
  pub start_flow-RanAll :
      (flow : List Task) (s t : Agent W)
      → start_flow uuid flow s ≡ (ok tt, t)
      → RanAll (commands flow) s t
  start_flow-RanAll flow s t h = (start_flow-Ensures flow s).ensured tt t h
