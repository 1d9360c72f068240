-- ===== src/Hardware/Dispatch.antt =====
-- hardware.py: `dispatch_to_managers`, `dispatch_to_all_managers`, `cache_node` and
-- `load_managers`.
pub mod Answers
pub mod All
pub mod Escapes
pub mod Caching
use test_frerfhrebfd.Common.{
  String, Bool, true, false, Option, none, some, List, [], ◌∷◌, insert, str_eq, not, if◌then◌else◌,
}
use test_frerfhrebfd.Errors.Hierarchy.{ErrorClass, is_subclass}
use test_frerfhrebfd.Errors.Build.{Error, foreign_error, hardware_manager_method_not_found}
use test_frerfhrebfd.Exec.{Result, ok, err, Exec, pure, raise, gets, except, ◌>>=◌, ◌>>◌}
use test_frerfhrebfd.Hardware.Types.{Node, World, Manager, Hardware}
use test_frerfhrebfd.Hardware.Managers.{get_managers}

-- `except IncompatibleHardwareMethodError`
abbrev pub is_incompatible : Error → Bool
is_incompatible e = is_subclass e.class ErrorClass.incompatible_hardware_method_error

-- The body of the `for` loop of `dispatch_to_managers`, for the attribute that `getattr` finds;
-- `next` is the rest of the loop.
ask_manager : {E A : Type 0} → Option (Exec (World E) A) → Exec (World E) A → Exec (World E) A
unfolding except
ask_manager none next = next
ask_manager (some f) next = except ErrorClass.incompatible_hardware_method_error f (λ e. next)

module _ {E V A : Type 0} (method : String) (call : Manager E V → Option (Exec (World E) A)) where
  -- `call` is `getattr(manager, method, None)` with the arguments of the call.
  unfoldable pub try_managers : List (Manager E V) → Exec (World E) A
  unfolding ask_manager
  try_managers [] = raise (hardware_manager_method_not_found method)
  try_managers (m ∷ ms) = ask_manager (call m) (try_managers ms)

-- `if responses == {}: raise`
pub collected : {E A : Type 0} → String → List (String × A) → Exec (World E) (List (String × A))
collected method [] = raise (hardware_manager_method_not_found method)
collected method (r ∷ responses) = pure (r ∷ responses)

module _ {E A : Type 0} where
  -- One manager's answer, added to the responses unless it does not support the method.
  respond :
      String → Option (Exec (World E) A) → List (String × A) → Exec (World E) (List (String × A))
  unfolding except ◌>>=◌
  respond class_name none responses = pure responses
  respond class_name (some f) responses =
      except ErrorClass.incompatible_hardware_method_error
        (do response ← f; pure (insert class_name response responses)) (λ e. pure responses)

module _ {E V A : Type 0} (call : Manager E V → Option (Exec (World E) A)) where
  -- The `for` loop of `dispatch_to_all_managers`, with the responses so far.
  unfoldable pub ask_managers :
      List (Manager E V) → List (String × A) → Exec (World E) (List (String × A))
  unfolding respond ◌>>=◌
  ask_managers [] responses = pure responses
  ask_managers (m ∷ ms) responses = do
    responses' ← respond m.class_name (call m) responses
    ask_managers ms responses'

-- A step of the world outside the cache.
abbrev pub in_world : {E V A : Type 0} → Exec (World E) A → Exec (Hardware E V) A
in_world m s = let (r, w) = m s.world in (r, record s { world = w })

-- The managers that stevedore finds are fixed for the rest of the module.
module _ {E V A : Type 0} (extension_manager : List (Manager E V)) where
  unfoldable pub dispatch_to_managers :
      String → (Manager E V → Option (Exec (World E) A)) → Exec (Hardware E V) A
  unfolding get_managers try_managers ◌>>=◌
  dispatch_to_managers method call = do
    managers ← get_managers extension_manager
    in_world (try_managers method call managers)

  unfoldable pub dispatch_to_all_managers :
      String → (Manager E V → Option (Exec (World E) A)) → Exec (Hardware E V) (List (String × A))
  unfolding get_managers ask_managers collected ◌>>=◌
  dispatch_to_all_managers method call = do
    managers ← get_managers extension_manager
    responses ← in_world (ask_managers call managers [])
    in_world (collected method responses)

-- `node['uuid']`
uuid_or_error : Option String → Result String
uuid_or_error none = err (foreign_error ErrorClass.key_error "'uuid'")
uuid_or_error (some uuid) = ok uuid

unfoldable pub subscript_uuid : Node → Result String
unfolding uuid_or_error
subscript_uuid node = uuid_or_error node.uuid

different_uuids : Result String → Result String → Result Bool
different_uuids (ok old) (ok new) = ok (not (str_eq old new))
different_uuids (ok old) (err e) = err e
different_uuids (err e) new = err e

-- `NODE is None or NODE['uuid'] != node['uuid']`
unfoldable pub is_new_node : Option Node → Node → Result Bool
unfolding different_uuids subscript_uuid
is_new_node none node = ok true
is_new_node (some old) node = different_uuids (subscript_uuid old) (subscript_uuid node)

module _ {E V : Type 0} where
  abbrev pub lift : {A : Type 0} → Result A → Exec (Hardware E V) A
  lift r s = (r, s)

  abbrev pub set_node : Node → Exec (Hardware E V) (Unit {0})
  set_node node s = (ok tt, record s { world = record (s.world) { node = some node } })

module _ {E V : Type 0} (extension_manager : List (Manager E V)) where
  -- The message of a new node reads its UUID, and then its root device is waited for.
  await_root_device : Bool → Node → Exec (Hardware E V) (Unit {0})
  unfolding dispatch_to_managers subscript_uuid ◌>>=◌
  await_root_device true node = do
    uuid ← lift (subscript_uuid node)
    dispatch_to_managers extension_manager "wait_for_disks" (λ m. m.wait_for_disks)
  await_root_device false node = pure tt

  unfoldable pub cache_node : Node → Exec (Hardware E V) (Unit {0})
  unfolding is_new_node await_root_device ◌>>=◌
  cache_node node = do
    old ← gets (λ s. s.world.node)
    new ← lift (is_new_node old node)
    set_node node
    await_root_device new node

  -- `load_managers()`
  unfoldable pub load_managers : Exec (Hardware E V) (Unit {0})
  unfolding get_managers ◌>>=◌
  load_managers = do managers ← get_managers extension_manager; pure tt
