-- ===== src/Extensions/Base/Commands.antt =====
-- extensions/base.py: extensions, and `ExecuteCommandMixin`, which runs one command at a time.
pub mod Effects
pub mod Serial
pub mod Outcomes
pub mod Steps
pub mod Stable
use Prim.Native.String.{◌∷◌ as text_cons}
use test_frerfhrebfd.Common.{
  ℕ, suc, ◌+◌, String, Bool, true, false, Option, none, some, List, [], ◌∷◌, get, insert, get_last?,
  str_eq, format, if◌then◌else◌,
}
use test_frerfhrebfd.Errors.Hierarchy.{ErrorClass, is_subclass}
use test_frerfhrebfd.Errors.Build.{
  Error, rest_error_init, foreign_error, requested_object_not_found_error,
}
use test_frerfhrebfd.Exec.{
  Result, ok, err, Exec, pure, raise, gets, modify, try_except, ◌>>=◌, ◌>>◌,
}
use test_frerfhrebfd.Value.{Value, Fields}
use test_frerfhrebfd.Extensions.Base.Results.{
  CommandResult, Payload, base_command_result, sync_command_result, is_done, run,
}

-- A decorated method: `sync_command` or `async_command`, with its validator.
pub data Command (W : Type 0) : Type 0 where
  sync_command async_command :
      (validator : Option (Fields → Exec W (Unit {0}))) (func : Fields → Exec W Value) → Command W

-- A `BaseAgentExtension`: its `command_map`.
abbrev pub Extension : Type 0 → Type 0
Extension W = List (String × Command W)

-- A started thread: the id of its result, and the call that it makes.
abbrev pub Thread : Type 0 → Type 0
Thread W = String × Exec W Value

pub record Agent (W : Type 0) : Type 0 where
  pub command_results : List (String × CommandResult)
  pub ext_mgr : Option (List (String × Extension W))
  pub threads : List (Thread W)
  pub next_uuid : ℕ
  pub heartbeats : ℕ
  pub world : W

-- `command_name.split('.', 1)`, of a text with a dot
cons_part : Prim.Native.Char.Char → Option (String × String) → Option (String × String)
cons_part c none = none
cons_part c (some (a, b)) = some (String.◌∷◌ c a, b)

unfoldable pub split_dot : String → Option (String × String)
unfolding cons_part
split_dot String.[] = none
split_dot (String.◌∷◌ c s) =
    let rest = cons_part c (split_dot s) in
    if str_eq (String.◌∷◌ c "") "." then some ("", s) else rest

two_parts : Option (String × String) → Result (String × String)
two_parts none = err (
    rest_error_init ErrorClass.invalid_command_error
      "Command name must be of the form <extension>.<name>")
two_parts (some parts) = ok parts

unfoldable pub split_command : String → Result (String × String)
unfolding split_dot two_parts
split_command command_name = two_parts (split_dot command_name)

key_or_error : {A : Type 0} → Option A → Result A
key_or_error none = err (foreign_error ErrorClass.key_error "")
key_or_error (some a) = ok a

-- `list(self.command_results.values())[-1]`
pub last_or_none : List (String × CommandResult) → Option CommandResult
last_or_none [] = none
last_or_none (x ∷ []) = some x.1
last_or_none (x ∷ y ∷ results) = last_or_none (y ∷ results)

-- The result object of an id, changed in place.
pub update :
    String
    → (CommandResult → CommandResult)
    → List (String × CommandResult)
    → List (String × CommandResult)
update id f [] = []
update id f ((j, r) ∷ results) =
    if str_eq j id then (j, f r) ∷ results else (j, r) ∷ update id f results

pub without : {W : Type 0} → String → List (Thread W) → List (Thread W)
without id [] = []
without id ((j, f) ∷ threads) = if str_eq j id then threads else (j, f) ∷ without id threads

module _ {W : Type 0} where
  abbrev lift : {A : Type 0} → Result A → Exec (Agent W) A
  lift r s = (r, s)

  -- A call into the world that the commands act on.
  abbrev in_world : {A : Type 0} → Exec W A → Exec (Agent W) A
  in_world m s = let (r, w) = m s.world in (r, record s { world = w })

  find_extension : Option (List (String × Extension W)) → String → Result (Extension W)
  unfolding key_or_error
  find_extension none extension_name =
      err (rest_error_init ErrorClass.extension_error "Extension manager is not initialized")
  find_extension (some ext_mgr) extension_name = key_or_error (get extension_name ext_mgr)

  -- `get_extension`
  unfoldable pub get_extension : String → Exec (Agent W) (Extension W)
  unfolding find_extension
  get_extension extension_name s = (find_extension s.ext_mgr extension_name, s)

  validate : Option (Fields → Exec W (Unit {0})) → Fields → Exec (Agent W) (Unit {0})
  validate none params = pure tt
  validate (some validator) params = in_world (validator params)

  refuse_if_running : Option CommandResult → Exec (Agent W) (Unit {0})
  refuse_if_running none = pure tt
  refuse_if_running (some last_command) =
      if is_done last_command
      then pure tt
      else raise (rest_error_init ErrorClass.command_execution_error "agent is busy")

-- The text of a generated UUID, by the number of those generated before.
module _ {W : Type 0} (uuid : ℕ → String) where
  generate_uuid : Exec (Agent W) String
  generate_uuid s = (ok (uuid s.next_uuid), record s { next_uuid = suc s.next_uuid })

  -- `AsyncCommandResult(...).start()`: the thread has its result's id.
  start : String → (Fields → Exec W Value) → Fields → Exec (Agent W) CommandResult
  unfolding generate_uuid base_command_result ◌>>=◌
  start command_name func params = do
    id ← generate_uuid
    modify (λ s. record s { threads = (id, func params) ∷ s.threads })
    pure (base_command_result id command_name params)

  -- The wrappers that `sync_command` and `async_command` make.
  call : String → Command W → Fields → Exec (Agent W) CommandResult
  unfolding validate generate_uuid sync_command_result start ◌>>=◌
  call command_name (Command.sync_command validator func) params = do
    validate validator params
    result ← in_world (func params)
    id ← generate_uuid
    pure (sync_command_result id command_name params true (Payload.value result))
  call command_name (Command.async_command validator func) params = do
    validate validator params
    start command_name func params

  call_or_error : Option (Command W) → String → Fields → Exec (Agent W) CommandResult
  unfolding call
  call_or_error none command_name params = raise (
      rest_error_init ErrorClass.invalid_command_error
        (format ("Unknown command: " ∷ command_name ∷ [])))
  call_or_error (some cmd) command_name params = call command_name cmd params

  -- `BaseAgentExtension.execute`
  unfoldable pub execute : Extension W → String → Fields → Exec (Agent W) CommandResult
  unfolding call_or_error
  execute ext command_name params = call_or_error (get command_name ext) command_name params

  -- The `except` clauses of `execute_command`: KeyError, InvalidContentError, and the rest, which
  -- is recorded as a failed result.
  handle : String → String → Fields → Error → Exec (Agent W) CommandResult
  unfolding generate_uuid sync_command_result ◌>>=◌
  handle command_name extension_part params e =
      if is_subclass e.class ErrorClass.key_error
      then raise (requested_object_not_found_error "Extension" extension_part)
      else if is_subclass e.class ErrorClass.invalid_content_error
      then raise e
      else (do
        id ← generate_uuid
        pure (sync_command_result id command_name params false (Payload.exception e)))

  -- The body of the `try` with its handlers.
  pub attempt : String → String → String → Fields → Exec (Agent W) CommandResult
  unfolding get_extension execute handle try_except ◌>>=◌
  attempt command_name extension_part command_part params =
      try_except (do ext ← get_extension extension_part; execute ext command_part params)
        (handle command_name extension_part params)

  record_result : CommandResult → Exec (Agent W) CommandResult
  record_result r s = (ok r, record s { command_results = insert r.id r s.command_results })

  -- `execute_command` once the name is split.
  execute_parts : String → Fields → String × String → Exec (Agent W) CommandResult
  unfolding last_or_none refuse_if_running attempt record_result ◌>>=◌
  execute_parts command_name params (extension_part, command_part) = do
    last_command ← gets (λ s. last_or_none s.command_results)
    refuse_if_running last_command
    result ← attempt command_name extension_part command_part params
    record_result result

  unfoldable pub execute_command : String → Fields → Exec (Agent W) CommandResult
  unfolding split_command execute_parts ◌>>=◌
  execute_command command_name params = do
    parts ← lift (split_command command_name)
    execute_parts command_name params parts

module _ {W : Type 0} where
  pub finish : Option (Exec W Value) → String → Agent W → Agent W
  unfolding update without run
  finish none id s = s
  finish (some execute_method) id s =
      let (outcome, w) = execute_method s.world in
      record s {
        command_results = update id (run outcome) s.command_results;
        threads = without id s.threads;
        heartbeats = suc s.heartbeats;
        world = w;
      }

  -- The thread of a command runs to its end, and asks for a heartbeat.
  unfoldable pub complete : String → Agent W → Agent W
  unfolding finish
  complete id s = finish (get id s.threads) id s
