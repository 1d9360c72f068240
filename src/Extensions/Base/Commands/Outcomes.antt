-- ===== src/Extensions/Base/Commands/Outcomes.antt =====
-- Names of commands, and the ways in which `execute_command` fails.
use Prim.Native.String.{◌++◌ as text_append}
use text.Mathlib.TextLemmas.{cons-append, nil-append}
use test_frerfhrebfd.Common.{
  ℕ, String, ◌≡◌, refl, ap, ◌∙◌, true, false, Option, none, some, ◌⊎◌, inl, inr, arith, str_eq,
  Bool-cases, Option-cases, suc, insert,
}
use test_frerfhrebfd.Errors.Hierarchy.{ErrorClass, is_subclass, status_code}
use test_frerfhrebfd.Errors.Build.{Error, rest_error_init, requested_object_not_found_error}
use test_frerfhrebfd.Exec.{Result, ok, err, Exec, continue, recover, ◌>>=◌}
use test_frerfhrebfd.Value.{Fields}
use test_frerfhrebfd.Extensions.Base.Results.{
  CommandResult, CommandStatus, Payload, nothing, is_done, base_command_result, sync_command_result,
}
use test_frerfhrebfd.Extensions.Base.Commands.{
  Agent, split_dot, two_parts, split_command, last_or_none, refuse_if_running, handle, attempt,
  record_result, execute_parts, execute_command, execute, cons_part, get_extension,
}
use test_frerfhrebfd.Extensions.Base.Commands.Serial.{IsBusy, last-append}

dot-append : (b : String) → text_append "." b ≡ String.◌∷◌ "." b
dot-append b = cons-append "." "" b ∙ ap (λ s. String.◌∷◌ "." s) (nil-append b)

cons_part-none :
    (c : Prim.Native.Char.Char) (o : Option (String × String)) → cons_part c o ≡ none → o ≡ none
unfolding cons_part
cons_part-none c none h = refl
cons_part-none c (some (a, b)) h = absurd (ground arith)

split_dot-append :
    (a b : String)
    → split_dot a ≡ none
    → split_dot (text_append a (text_append "." b)) ≡ some (a, b)
unfolding split_dot
split_dot-append String.[] b h = rw (nil-append (text_append "." b)) (rw (dot-append b) refl)
split_dot-append (String.◌∷◌ c a) b h = elim (Bool-cases (str_eq (String.◌∷◌ c "") ".")) [
  | inl e ↦ absurd (ground arith)
  | inr e ↦
      let rest : cons_part c (split_dot a) ≡ none = ground arith in
      rw (cons-append c a (text_append "." b))
        (rw e (rw (split_dot-append a b (cons_part-none c (split_dot a) rest)) refl))
]

-- A command name is split at its first dot: `<extension>.<name>` gives back the two parts, where
-- the name may have dots of its own and the extension has none.
pub split_command-append :
    (extension name : String)
    → split_dot extension ≡ none
    → split_command (text_append extension (text_append "." name)) ≡ ok (extension, name)
unfolding split_command
split_command-append extension name h = rw (split_dot-append extension name h)

abbrev pub busy_error : Error
busy_error = rest_error_init ErrorClass.command_execution_error "agent is busy"

split_err :
    (command_name : String) (e : Error)
    → split_command command_name ≡ err e
    → is_subclass e.class ErrorClass.invalid_content_error ≡ true
unfolding split_command
split_err command_name e h = elim (Option-cases (split_dot command_name)) [
  | inr (parts, d) ↦ absurd (unfold two_parts in ground arith)
  | inl d ↦
      let same : e
          ≡ rest_error_init ErrorClass.invalid_command_error
              "Command name must be of the form <extension>.<name>" =
        unfold two_parts in ground arith in
      rw same (unfold is_subclass rest_error_init in refl)
]

-- The last command, if there is one, does not run any more.
abbrev pub IsIdle : Option CommandResult → Type 0
IsIdle none = Unit {0}
IsIdle (some r) = is_done r ≡ true

module _ {W : Type 0} (uuid : ℕ → String) where
  refused :
      (o : Option CommandResult) (r : CommandResult)
      (next : Unit {0} → Exec (Agent W) CommandResult) (s : Agent W)
      → o ≡ some r
      → is_done r ≡ false
      → continue (refuse_if_running o s).0 next (refuse_if_running o s).1 ≡ (err busy_error, s)
  unfolding refuse_if_running
  refused none r next s e n = cc
  refused (some x) r next s e n = let running : is_done x ≡ false = ground arith in rw running refl

  -- While a command runs, `execute_command` refuses every well-formed one with "agent is busy",
  -- before its extension is looked up, and changes nothing.
  pub execute_command_busy :
      (command_name : String) (parts : String × String) (params : Fields) (s : Agent W)
      → split_command command_name ≡ ok parts
      → IsBusy s
      → execute_command uuid command_name params s ≡ (err busy_error, s)
  unfolding execute_command
  execute_command_busy command_name (a, b) params s p (before, id, r, f, table, d, u, n, th) =
      rw p (
        unfold execute_parts in
        refused (last_or_none s.command_results) r _ s (rw table (last-append before (id, r))) n)

  -- The extension is looked up, and runs the command.
  abbrev pub body : String × String → Fields → Exec (Agent W) CommandResult
  body (extension_part, command_part) params =
      get_extension extension_part >>= λ ext. execute uuid ext command_part params

  -- A result under its id, after those that are there.
  abbrev pub Recorded : CommandResult → Agent W → Agent W → Type 0
  Recorded r u t = t ≡ record u { command_results = insert r.id r u.command_results }

  -- What becomes of an exception: a KeyError is answered by a missing extension, status 404, an
  -- InvalidContentError goes on, and of any other there is a failed result that holds it, with an id
  -- of its own, for the command and its parameters.
  abbrev pub Caught :
      String → String → Fields → Error → Agent W → Result CommandResult → Agent W → Type 0
  Caught command_name extension_part params e u o t =
      ((is_subclass e.class ErrorClass.key_error ≡ true)
        × (x : Error) × (o ≡ err x)
        × (x.code ≡ 404)
        × (x ≡ requested_object_not_found_error "Extension" extension_part)
        × (u ≡ t))
      ⊎ ((is_subclass e.class ErrorClass.key_error ≡ false)
          × (is_subclass e.class ErrorClass.invalid_content_error ≡ true)
          × (o ≡ err e)
          × (u ≡ t))
      ⊎ ((is_subclass e.class ErrorClass.key_error ≡ false)
          × (is_subclass e.class ErrorClass.invalid_content_error ≡ false)
          × (r : CommandResult) × (o ≡ ok r)
          × (r.id ≡ uuid u.next_uuid)
          × (r.command_name ≡ command_name)
          × (r.command_params ≡ params)
          × (r.command_status ≡ CommandStatus.failed)
          × (r.command_error ≡ Payload.exception e)
          × (r.command_result ≡ nothing)
          × Recorded r (record u { next_uuid = suc u.next_uuid }) t)

  abbrev pub Answered :
      String
      → String
      → Fields
      → Result CommandResult
      → Agent W
      → Result CommandResult
      → Agent W
      → Type 0
  Answered command_name extension_part params (ok r) u o t = (o ≡ ok r) × Recorded r u t
  Answered command_name extension_part params (err e) u o t =
      Caught command_name extension_part params e u o t

  -- How `execute_command` comes to its outcome.
  abbrev pub Executed : String → Fields → Agent W → Result CommandResult → Agent W → Type 0
  Executed command_name params s o t =
      ((e : Error) × (split_command command_name ≡ err e)
        × (o ≡ err e)
        × (is_subclass e.class ErrorClass.invalid_content_error ≡ true)
        × (s ≡ t))
      ⊎ ((parts : String × String) × (r : CommandResult) × (split_command command_name ≡ ok parts)
          × (last_or_none s.command_results ≡ some r)
          × (is_done r ≡ false)
          × (o ≡ err busy_error)
          × (s ≡ t))
      ⊎ ((parts : String × String) × (split_command command_name ≡ ok parts)
          × IsIdle (last_or_none s.command_results)
          × (outcome : Result CommandResult) × (u : Agent W) × (body parts params s ≡ (outcome, u))
          × Answered command_name parts.0 params outcome u o t)

  handled :
      (command_name extension_part : String) (params : Fields) (e : Error)
      (o : Result CommandResult) (s t : Agent W)
      → (let after = handle uuid command_name extension_part params e s in
          continue after.0 (record_result uuid) after.1)
        ≡ (o, t)
      → Caught command_name extension_part params e s o t
  unfolding handle record_result sync_command_result base_command_result
      requested_object_not_found_error status_code
  handled command_name extension_part params e o s t h =
      elim (Bool-cases (is_subclass e.class ErrorClass.key_error)) [
        | inl k ↦
            let missing = requested_object_not_found_error "Extension" extension_part in
            inl (k, missing, ground arith, refl, refl, ground arith)
        | inr k ↦ elim (Bool-cases (is_subclass e.class ErrorClass.invalid_content_error)) [
          | inl c ↦ inr (inl (k, c, ground arith, ground arith))
          | inr c ↦
              let r =
                sync_command_result (uuid s.next_uuid) command_name params false
                  (Payload.exception e) in
              inr (inr (k, c, r, ground arith, refl, refl, refl, refl, refl, refl, ground arith))
        ]
      ]

  answered :
      (command_name extension_part : String) (params : Fields) (outcome o : Result CommandResult)
      (u t : Agent W)
      → (let after = recover outcome (handle uuid command_name extension_part params) u in
          continue after.0 (record_result uuid) after.1)
        ≡ (o, t)
      → Answered command_name extension_part params outcome u o t
  answered command_name extension_part params (ok r) o u t h =
      unfold record_result in (ground arith, ground arith)
  answered command_name extension_part params (err e) o u t h =
      handled command_name extension_part params e o u t h

  go_on :
      (last : Option CommandResult) (next : Unit {0} → Exec (Agent W) CommandResult)
      (o : Result CommandResult) (s t : Agent W)
      → continue (refuse_if_running last s).0 next (refuse_if_running last s).1 ≡ (o, t)
      → ((r : CommandResult) × (last ≡ some r)
          × (is_done r ≡ false)
          × (o ≡ err busy_error)
          × (s ≡ t))
        ⊎ (IsIdle last × (next tt s ≡ (o, t)))
  unfolding refuse_if_running
  go_on none next o s t h = inr (tt, h)
  go_on (some r) next o s t h = elim (Bool-cases (is_done r)) [
    | inl d ↦ inr (d, ground arith)
    | inr d ↦ inl (r, refl, d, ground arith, ground arith)
  ]

  parts-Executed :
      (command_name extension_part command_part : String) (params : Fields)
      (o : Result CommandResult) (s t : Agent W)
      → split_command command_name ≡ ok (extension_part, command_part)
      → execute_parts uuid command_name params (extension_part, command_part) s ≡ (o, t)
      → Executed command_name params s o t
  unfolding execute_parts attempt get_extension ◌>>=◌
  parts-Executed command_name a b params o s t p h =
      elim (go_on (last_or_none s.command_results) _ o s t h) [
        | inl (r, last, d, e, same) ↦ inr (inl ((a, b), r, p, last, d, e, same))
        | inr (idle, k) ↦
            let outcome = body (a, b) params s in
            inr (
              inr (
                (a, b),
                p,
                idle,
                outcome.0,
                outcome.1,
                refl,
                answered command_name a params outcome.0 o outcome.1 t k,
              ))
      ]

  split-Executed :
      (command_name : String) (params : Fields) (parts : Result (String × String))
      (o : Result CommandResult) (s t : Agent W)
      → split_command command_name ≡ parts
      → continue parts (execute_parts uuid command_name params) s ≡ (o, t)
      → Executed command_name params s o t
  split-Executed command_name params (ok (a, b)) o s t p h =
      parts-Executed command_name a b params o s t p h
  split-Executed command_name params (err e) o s t p h =
      inl (e, p, ground arith, split_err command_name e p, ground arith)

  -- `execute_command` refuses a name without a dot by an InvalidContentError, and any other one with
  -- "agent is busy" while the last command runs; both change nothing. Else it looks the extension up and
  -- runs the command. A result of that is recorded as it is. Of its exceptions only two kinds leave
  -- `execute_command`: a KeyError, as a missing extension with status 404, and an
  -- InvalidContentError as it is. Every other one is recorded as a failed result that holds it, and
  -- that result is returned.
  pub execute_command_err :
      (command_name : String) (params : Fields) (o : Result CommandResult) (s t : Agent W)
      → execute_command uuid command_name params s ≡ (o, t)
      → Executed command_name params s o t
  unfolding execute_command ◌>>=◌
  execute_command_err command_name params o s t h =
      split-Executed command_name params (split_command command_name) o s t refl h
