-- ===== src/Hardware/Dispatch/Escapes.antt =====
-- Which exceptions leave a dispatch.
use test_frerfhrebfd.Common.{String, ◌≡◌, false, Option, none, some, List, [], ◌∷◌, inl, inr, arith}
use test_frerfhrebfd.Errors.Hierarchy.{is_subclass}
use test_frerfhrebfd.Errors.Build.{Error, rest_error_init}
use test_frerfhrebfd.Exec.{err, Exec, Result-cases, ◌>>=◌, >>=-err}
use test_frerfhrebfd.Hardware.Types.{World, Manager, Hardware}
use test_frerfhrebfd.Hardware.Managers.{get_managers}
use test_frerfhrebfd.Hardware.Managers.Order.{get_managers_err}
use test_frerfhrebfd.Hardware.Dispatch.{
  is_incompatible, ask_manager, try_managers, ask_managers, collected, dispatch_to_managers,
  dispatch_to_all_managers, in_world,
}
use test_frerfhrebfd.Hardware.Dispatch.All.{
  ask_managers_err, collected_err, method_not_found-IsAnswer,
}

get_managers_err-IsAnswer :
    {E V : Type 0} (found : List (Manager E V)) (s t : Hardware E V) (e : Error)
    → get_managers found s ≡ (err e, t)
    → is_incompatible e ≡ false
unfolding is_subclass rest_error_init
get_managers_err-IsAnswer found s t e h = rw (get_managers_err found s t e h)

module _ {E V A : Type 0} (method : String) (call : Manager E V → Option (Exec (World E) A)) where
  ask_manager_err :
      (o : Option (Exec (World E) A)) (next : Exec (World E) A) (w u : World E) (e : Error)
      → ((v : World E) → next v ≡ (err e, u) → is_incompatible e ≡ false)
      → ask_manager o next w ≡ (err e, u)
      → is_incompatible e ≡ false
  unfolding ask_manager
  ask_manager_err none next w u e ih h = ih w h
  ask_manager_err (some f) next w u e ih h = elim (Result-cases (f w).0) [
    | inl (x, r) ↦ absurd (ground arith)
    | inr (x, r) ↦ ground (arith, ih (f w).1)
  ]

  try_managers_err :
      (ms : List (Manager E V)) (w u : World E) (e : Error)
      → try_managers method call ms w ≡ (err e, u)
      → is_incompatible e ≡ false
  unfolding try_managers
  try_managers_err [] w u e h = ground (arith, method_not_found-IsAnswer method)
  try_managers_err (m ∷ ms) w u e h =
      ask_manager_err (call m) (try_managers method call ms) w u e
        (λ v k. try_managers_err ms v u e k) h

module _ {E V A : Type 0} (extension_manager : List (Manager E V)) (method : String)
    (call : Manager E V → Option (Exec (World E) A)) where
  -- The two dispatch functions take IncompatibleHardwareMethodError, and what is derived from it,
  -- as a refusal of one manager: no such exception leaves either of them.
  pub dispatch-IsAnswer :
      (s t : Hardware E V) (e : Error)
      → (dispatch_to_managers extension_manager method call s ≡ (err e, t)
          → is_incompatible e ≡ false)
        × (dispatch_to_all_managers extension_manager method call s ≡ (err e, t)
            → is_incompatible e ≡ false)
  unfolding dispatch_to_managers dispatch_to_all_managers
  dispatch-IsAnswer s t e = (
    λ h.
        elim (>>=-err (get_managers extension_manager) (λ l. in_world (try_managers method call l))
          s e t h) [
            | inl x ↦ get_managers_err-IsAnswer extension_manager s t e x
            | inr (ms, u, x, k) ↦ try_managers_err method call ms u.world t.world e (ground arith)
          ],
    λ h.
        elim (>>=-err (get_managers extension_manager)
          (λ l. in_world (ask_managers call l []) >>= λ r. in_world (collected method r)) s e t h) [
            | inl x ↦ get_managers_err-IsAnswer extension_manager s t e x
            | inr (ms, u, x, k) ↦
                elim (>>=-err (in_world (ask_managers call ms []))
                  (λ r. in_world (collected method r)) u e t k) [
                    | inl y ↦ ask_managers_err call ms [] u.world t.world e (ground arith)
                    | inr (rs, v, y, z) ↦ collected_err method rs v.world t.world e (ground arith)
                  ]
          ],
  )
