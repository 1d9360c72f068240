-- ===== src/Extensions/Base/Results.antt =====
-- extensions/base.py: the results of commands, and the run of an asynchronous one.
pub mod Run
use test_frerfhrebfd.Common.{String, Bool, true, false, [], ◌∷◌, format, not, if◌then◌else◌}
use test_frerfhrebfd.Errors.Hierarchy.{ErrorClass, is_subclass}
use test_frerfhrebfd.Errors.Build.{Error, rest_error_init, str}
use test_frerfhrebfd.Exec.{Result, ok, err}
use test_frerfhrebfd.Value.{Value, Fields}

-- `AgentCommandStatus`
pub data CommandStatus : Type 0 where
  running succeeded failed clean_version_mismatch : CommandStatus

-- What `command_result` and `command_error` hold; `None` is the value `null`.
pub data Payload : Type 0 where
  value : Value → Payload
  exception : Error → Payload

abbrev pub nothing : Payload
nothing = Payload.value Value.null

-- `BaseCommandResult`
pub record CommandResult : Type 0 where
  pub id : String
  pub command_name : String
  pub command_params : Fields
  pub command_status : CommandStatus
  pub command_error : Payload
  pub command_result : Payload

-- `BaseCommandResult.__init__`, with the UUID that was generated
unfoldable pub base_command_result : String → String → Fields → CommandResult
base_command_result uuid command_name command_params = record {
  id = uuid;
  command_name = command_name;
  command_params = command_params;
  command_status = CommandStatus.running;
  command_error = nothing;
  command_result = nothing;
}

is_running : CommandStatus → Bool
is_running CommandStatus.running = true
is_running CommandStatus.succeeded = false
is_running CommandStatus.failed = false
is_running CommandStatus.clean_version_mismatch = false

unfoldable pub is_done : CommandResult → Bool
unfolding is_running
is_done r = not (is_running r.command_status)

-- A bare text becomes a dictionary with one key.
wrap_text : Bool → Payload → Payload
wrap_text success (Payload.value (Value.text s)) =
    Payload.value
      (Value.dict (Fields.field (if success then "result" else "error") (Value.text s) Fields.end))
wrap_text success result_or_error = result_or_error

-- `SyncCommandResult.__init__`
unfoldable pub sync_command_result : String → String → Fields → Bool → Payload → CommandResult
unfolding base_command_result wrap_text
sync_command_result uuid command_name command_params true result_or_error =
    record (base_command_result uuid command_name command_params) {
      command_status = CommandStatus.succeeded;
      command_result = wrap_text true result_or_error;
    }
sync_command_result uuid command_name command_params false result_or_error =
    record (base_command_result uuid command_name command_params) {
      command_status = CommandStatus.failed;
      command_error = wrap_text false result_or_error;
    }

-- A text that an asynchronous command returns is prefixed by the command's name.
prefix_text : String → Value → Value
prefix_text command_name (Value.text s) =
    Value.dict
      (Fields.field "result" (Value.text (format (command_name ∷ ": " ∷ s ∷ []))) Fields.end)
prefix_text command_name result = result

-- The errors that are reported as they are; any other becomes a CommandExecutionError.
reported : Error → Error
reported e =
    if is_subclass e.class ErrorClass.rest_error
    then e
    else rest_error_init ErrorClass.command_execution_error (str e)

-- `AsyncCommandResult.run`, by the outcome of `execute_method`
unfoldable pub run : Result Value → CommandResult → CommandResult
unfolding prefix_text reported
run (ok result) r = record r {
  command_result = Payload.value (prefix_text r.command_name result);
  command_status = CommandStatus.succeeded;
}
run (err e) r =
    if is_subclass e.class ErrorClass.clean_version_mismatch
    then record r {
      command_error = Payload.exception e;
      command_status = CommandStatus.clean_version_mismatch;
      command_result = nothing;
    }
    else record r {
      command_error = Payload.exception (reported e);
      command_status = CommandStatus.failed;
    }
