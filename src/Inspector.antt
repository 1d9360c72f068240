-- ===== src/Inspector.antt =====
-- ironic_python_agent/inspector.py: `inspect` and `call_inspector`; utils.py: `AccumulatedFailures`.
-- `post` is `requests.post` of the encoded data, and `load` the loading of the collectors' plug-ins.
pub mod Posted
use test_frerfhrebfd.Common.{
  ℕ, String, Bool, true, false, Option, none, some, List, [], ◌∷◌, ◌++◌, leb, str_eq, format, join,
  if◌then◌else◌,
}
use test_frerfhrebfd.Errors.Hierarchy.{ErrorClass}
use test_frerfhrebfd.Errors.Build.{Error, foreign_error, str}
use test_frerfhrebfd.Exec.{Result, ok, err, Exec, pure, raise, ◌>>=◌, ◌>>◌}
use test_frerfhrebfd.Value.{Value, Fields}

-- What the inspection works on: the data, the accumulated failures, and the world.
pub record Inspection (W : Type 0) : Type 0 where
  pub collected : Fields
  pub failures : List String
  pub world : W

-- What the inspector answers: its status, and the UUID of the node in its document.
pub record Reply : Type 0 where
  pub status_code : ℕ
  pub uuid : Option String

-- A collector with its name; it adds to the data and to the failures, and may raise.
abbrev pub Collector : Type 0 → Type 0
Collector W = String × Exec (Inspection W) (Unit {0})

error_items : List String → List String
error_items [] = []
error_items (item ∷ failures) = format ("* " ∷ item ∷ []) ∷ error_items failures

-- `AccumulatedFailures.get_error`
pub get_error : List String → Option String
unfolding error_items
get_error [] = none
get_error (failure ∷ failures) = some (
    format (
      "The following errors were encountered:\n"
      ∷ join "\n" (error_items (failure ∷ failures))
      ∷ []))

-- `data[key] = value`
set_field : String → Value → Fields → Fields
set_field key value Fields.end = Fields.field key value Fields.end
set_field key value (Fields.field k v fields) =
    if str_eq k key
    then Fields.field k value fields
    else Fields.field k v (set_field key value fields)

error_value : Option String → Value
error_value none = Value.null
error_value (some message) = Value.text message

-- `resp.status_code >= 400`
pub accepted : Reply → Option (Option String)
accepted reply = if leb 400 reply.status_code then none else some reply.uuid

module _ {W : Type 0} where
  -- `AccumulatedFailures.add`
  abbrev pub add : String → Inspection W → Inspection W
  add failure s = record s { failures = s.failures ++ failure ∷ [] }

  -- `AccumulatedFailures.raise_if_needed`, for an InspectionError
  raise_for : Option String → Exec (Inspection W) (Unit {0})
  raise_for none = pure tt
  raise_for (some message) = raise (foreign_error ErrorClass.inspection_error message)

  unfoldable pub raise_if_needed : Exec (Inspection W) (Unit {0})
  unfolding raise_for get_error
  raise_if_needed s = raise_for (get_error s.failures) s

  -- One round of the loop over the collectors: an exception is a failure.
  record_outcome : String → Result (Unit {0}) → Inspection W → Inspection W
  record_outcome name (ok x) s = s
  record_outcome name (err e) s = add (format ("collector " ∷ name ∷ " failed: " ∷ str e ∷ [])) s

  unfoldable pub run_collectors : List (Collector W) → Inspection W → Inspection W
  unfolding record_outcome
  run_collectors [] s = s
  run_collectors ((name, collector) ∷ collectors) s =
      let (outcome, s') = collector s in run_collectors collectors (record_outcome name outcome s')

  -- The data with the entry `error`.
  unfoldable pub with_error : Inspection W → Inspection W
  unfolding set_field error_value get_error
  with_error s = record s {
    collected = set_field "error" (error_value (get_error s.failures)) s.collected;
  }

module _ {W : Type 0} (post : Fields → Exec W Reply) where
  reply_of : Result Reply → Result (Option (Option String))
  unfolding accepted
  reply_of (ok reply) = ok (accepted reply)
  reply_of (err e) = err e

  -- `call_inspector`; `none` stands for the `None` of a status of 400 and above
  unfoldable pub call_inspector : Exec (Inspection W) (Option (Option String))
  unfolding with_error reply_of
  call_inspector s =
      let u = with_error s in
      let (reply, w) = post u.collected u.world in (reply_of reply, record u { world = w })

  abbrev pub uuid_of : Option (Option String) → Option String
  uuid_of none = none
  uuid_of (some uuid) = uuid

  -- What follows the run of the collectors.
  unfoldable pub conclude : Exec (Inspection W) (Option String)
  unfolding call_inspector raise_if_needed ◌>>=◌
  conclude = do resp ← call_inspector; raise_if_needed; pure (uuid_of resp)

  -- Failed loading is reported to the inspector and then goes on as it was raised.
  report_and_raise : Error → Exec (Inspection W) (Option String)
  unfolding call_inspector ◌>>=◌
  report_and_raise e s = (do resp ← call_inspector; raise e) (add (str e) s)

  inspect_with : Result (List (Collector W)) → Exec (Inspection W) (Option String)
  unfolding report_and_raise run_collectors conclude
  inspect_with (err e) s = report_and_raise e s
  inspect_with (ok collectors) s = conclude (run_collectors collectors s)

  abbrev pub at_start : W → Inspection W
  at_start w = record { collected = Fields.end; failures = []; world = w }

  -- `inspect`, where `inspection_callback_url` is configured
  unfoldable pub inspect : Exec W (List (Collector W)) → W → Result (Option String) × Inspection W
  unfolding inspect_with
  inspect load w = let (collectors, v) = load w in inspect_with collectors (at_start v)
