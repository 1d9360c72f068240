-- ===== src/Samples/Commands.antt =====
-- extensions/base.py on a small extension: a command that returns at once and one that runs in a
-- thread. The world is a number.
use text.Mathlib.TextLemmas.{nil≢cons, cons≢nil, tail-eq_of_cons-eq}
use test_frerfhrebfd.Common.{
  ℕ, zero, suc, String, ◌≡◌, refl, ap, true, none, some, List, [], ◌∷◌, inl, get,
}
use test_frerfhrebfd.Errors.Hierarchy.{ErrorClass, is_subclass}
use test_frerfhrebfd.Errors.Build.{foreign_error, requested_object_not_found_error}
use test_frerfhrebfd.Exec.{Result, ok, err, Exec}
use test_frerfhrebfd.Value.{Value, Fields}
use test_frerfhrebfd.Extensions.Base.Results.{
  CommandResult, Payload, sync_command_result, base_command_result, is_done,
}
use test_frerfhrebfd.Extensions.Base.Commands.{
  Agent, Extension, Command, execute_command, complete, split_command, split_dot,
}
use test_frerfhrebfd.Extensions.Base.Commands.Serial.{IsSerial, IsBusy}
use test_frerfhrebfd.Extensions.Base.Commands.Steps.{started, Step, Reach, Reach-IsSerial}
use test_frerfhrebfd.Extensions.Flow.{Task, start_flow}
use test_frerfhrebfd.Extensions.Flow.Ran.{RanAll, commands, start_flow-RanAll}
use test_frerfhrebfd.Extensions.Base.Commands.Stable.{Reach-get, busy_ends}
use test_frerfhrebfd.Extensions.Base.Commands.Outcomes.{
  execute_command_busy, busy_error, execute_command_err, Executed,
}

-- UUIDs for the tests: all different.
uuid_text : ℕ → String
uuid_text zero = ""
uuid_text (suc n) = String.◌∷◌ "u" (uuid_text n)

uuid_text_injective : (i j : ℕ) → uuid_text i ≡ uuid_text j → i ≡ j
unfolding uuid_text
uuid_text_injective zero zero e = refl
uuid_text_injective zero (suc j) e = absurd (nil≢cons e)
uuid_text_injective (suc i) zero e = absurd (cons≢nil e)
uuid_text_injective (suc i) (suc j) e = ap suc (uuid_text_injective i j (tail-eq_of_cons-eq e))

abbrev answer : Fields → Exec ℕ Value
answer params w = (ok (Value.text "done"), suc w)

abbrev break_down : Fields → Exec ℕ Value
break_down params w = (err (foreign_error ErrorClass.value_error "broken"), w)

abbrev extensions : List (String × Extension ℕ)
extensions =
    (
      "standby",
      ("sync", Command.sync_command none answer)
          ∷ ("run_image", Command.async_command none break_down)
          ∷ [],
    )
    ∷ []

abbrev at_start : Agent ℕ
at_start = started extensions 0

abbrev after_sync : Agent ℕ
after_sync = (execute_command uuid_text "standby.sync" Fields.end at_start).1

abbrev running : Agent ℕ
running = (execute_command uuid_text "standby.run_image" Fields.end after_sync).1

abbrev ended : Agent ℕ
ended = complete "u" running

at_start-IsSerial : IsSerial uuid_text at_start
at_start-IsSerial = record { phase = inl (tt, refl); issued = tt }

way : Reach uuid_text at_start ended
way =
    Reach.next
      (Reach.next (Reach.next Reach.here (Step.posts "standby.sync" Fields.end refl))
        (Step.posts "standby.run_image" Fields.end refl))
      (Step.ends "u" refl)

Reach-IsSerial_example : IsSerial uuid_text ended
Reach-IsSerial_example = Reach-IsSerial uuid_text uuid_text_injective at_start-IsSerial way

abbrev sync_result : CommandResult
sync_result = sync_command_result "" "sync" Fields.end true (Payload.value (Value.text "done"))

abbrev image_result : CommandResult
image_result = base_command_result "u" "run_image" Fields.end

running-IsBusy : IsBusy running
unfolding execute_command uuid_text is_done
running-IsBusy = (
  ("", sync_result) ∷ [],
  "u",
  image_result,
  break_down Fields.end,
  refl,
  (refl, tt),
  ((λ e. nil≢cons e), tt),
  refl,
  refl,
)

first_result : get "" after_sync.command_results ≡ some sync_result
unfolding execute_command uuid_text sync_command_result
first_result = refl

after_sync-IsSerial : IsSerial uuid_text after_sync
after_sync-IsSerial =
    Reach-IsSerial uuid_text uuid_text_injective at_start-IsSerial
      (Reach.next Reach.here (Step.posts "standby.sync" Fields.end refl))

way_on : Reach uuid_text after_sync ended
way_on =
    Reach.next (Reach.next Reach.here (Step.posts "standby.run_image" Fields.end refl))
      (Step.ends "u" refl)

sync_result-is_done : is_done sync_result ≡ true
unfolding is_done sync_command_result
sync_result-is_done = refl

Reach-get_example : get "" ended.command_results ≡ some sync_result
Reach-get_example =
    Reach-get uuid_text uuid_text_injective "" sync_result after_sync-IsSerial first_result
      sync_result-is_done way_on

busy_ends_example :
    (id : String) × (r : CommandResult) × (get id (complete id running).command_results ≡ some r)
    × (is_done r ≡ true)
    × ((complete id running).threads ≡ [])
    × ((complete id running).heartbeats ≡ suc running.heartbeats)
busy_ends_example = busy_ends running running-IsBusy

two_parts_of : split_command "standby.sync" ≡ ok ("standby", "sync")
unfolding split_command
two_parts_of = refl

execute_command_busy_example :
    execute_command uuid_text "standby.sync" Fields.end running ≡ (err busy_error, running)
execute_command_busy_example =
    execute_command_busy uuid_text "standby.sync" ("standby", "sync") Fields.end running
      two_parts_of running-IsBusy

no_such_extension :
    execute_command uuid_text "rescue.finalize" Fields.end at_start
    ≡ (err (requested_object_not_found_error "Extension" "rescue"), at_start)
unfolding execute_command is_subclass foreign_error
no_such_extension = refl

abbrev missing_extension : Result CommandResult
missing_extension = err (requested_object_not_found_error "Extension" "rescue")

execute_command_err_example :
    Executed uuid_text "rescue.finalize" Fields.end at_start missing_extension at_start
execute_command_err_example =
    execute_command_err uuid_text "rescue.finalize" Fields.end missing_extension at_start at_start
      no_such_extension

no_dot : split_dot "standby" ≡ none
unfolding split_dot
no_dot = refl

abbrev flow : List Task
flow = (("standby.sync", Fields.end) ∷ []) ∷ (("standby.sync", Fields.end) ∷ []) ∷ []

abbrev after_flow : Agent ℕ
after_flow = (start_flow uuid_text flow at_start).1

flow_ends : start_flow uuid_text flow at_start ≡ (ok tt, after_flow)
unfolding start_flow split_dot uuid_text is_done
flow_ends = refl

start_flow-RanAll_example : RanAll uuid_text (commands flow) at_start after_flow
start_flow-RanAll_example = start_flow-RanAll uuid_text flow at_start after_flow flow_ends
