-- ===== src/Extensions/Base/Commands/Serial.antt =====
-- One command at a time: the invariant of the command table and its threads.
use test_frerfhrebfd.Common.{
  ℕ, suc, ◌<◌, String, ◌≡◌, ◌≢◌, refl, sym, ap, ◌∙◌, true, false, Option, none, some, List, [], ◌∷◌,
  ◌++◌, ◌⊎◌, inl, inr, arith, insert, eq_iff, All, All-append, All-imp, Bool-cases,
}
use test_frerfhrebfd.Exec.{Result, ok, err, Exec, ◌>>=◌, continue}
use test_frerfhrebfd.Value.{Value, Fields}
use test_frerfhrebfd.Extensions.Base.Results.{CommandResult, is_done}
use test_frerfhrebfd.Extensions.Base.Commands.{
  Agent, execute_command, execute_parts, split_command, last_or_none, refuse_if_running, attempt,
  record_result,
}
use test_frerfhrebfd.Extensions.Base.Commands.Effects.{Kept, Made, Effect, attempt-Effect}

abbrev pub Results : Type 0
Results = List (String × CommandResult)

abbrev pub IsDone : String × CommandResult → Type 0
IsDone kr = is_done kr.1 ≡ true

-- Every command but perhaps the last has ended; a running one is the last and has the one thread.
abbrev pub IsIdle : {W : Type 0} → Agent W → Type 0
IsIdle s = All IsDone s.command_results × (s.threads ≡ [])

abbrev pub IsBusy : {W : Type 0} → Agent W → Type 0
IsBusy {W} s =
    (before : Results) × (id : String) × (r : CommandResult) × (f : Exec W Value)
    × (s.command_results ≡ before ++ (id, r) ∷ [])
    × All IsDone before
    × All (λ kr. kr.0 ≢ id) before
    × (is_done r ≡ false)
    × (s.threads ≡ (id, f) ∷ [])

pub last-append :
    (before : Results) (x : String × CommandResult) → last_or_none (before ++ x ∷ []) ≡ some x.1
unfolding last_or_none
last-append [] x = refl
last-append (y ∷ []) x = refl
last-append (y ∷ z ∷ before) x = last-append (z ∷ before) x

insert_fresh :
    (k : String) (r : CommandResult) (results : Results)
    → All (λ kr. kr.0 ≢ k) results
    → insert k r results ≡ results ++ (k, r) ∷ []
insert_fresh k r [] h = refl
insert_fresh k r ((j, x) ∷ results) h =
    ground (arith, eq_iff j k, h.0, insert_fresh k r results h.1)

abbrev MayGoOn : Option CommandResult → Type 0
MayGoOn none = Unit
MayGoOn (some r) = is_done r ≡ true

not_last :
    (o : Option CommandResult) (r : CommandResult) → o ≡ some r → MayGoOn o → is_done r ≡ false → ⊥
not_last none r e g n = cc
not_last (some x) r e g n = ground arith

module _ (uuid : ℕ → String) where
  -- The keys are UUIDs that have been generated.
  abbrev pub IsIssued : ℕ → String × CommandResult → Type 0
  IsIssued n kr = (i : ℕ) × (kr.0 ≡ uuid i) × (i < n)

  IsIssued-suc : (n : ℕ) (kr : String × CommandResult) → IsIssued n kr → IsIssued (suc n) kr
  IsIssued-suc n kr (i, e, h) = (i, e, omega arith)

  IsIssued-fresh :
      (injective : (i j : ℕ) → uuid i ≡ uuid j → i ≡ j)
      → (n : ℕ) (kr : String × CommandResult) → IsIssued n kr
      → kr.0 ≢ uuid n
  IsIssued-fresh injective n kr (i, e, h) k = let same = injective i n (sym e ∙ k) in omega arith

module _ {W : Type 0} (uuid : ℕ → String) where
  pub record IsSerial (s : Agent W) : Type 0 where
    pub phase : IsIdle s ⊎ IsBusy s
    pub issued : All (IsIssued uuid s.next_uuid) s.command_results

  module _ (injective : (i j : ℕ) → uuid i ≡ uuid j → i ≡ j) where
    -- A result made from an idle state is recorded after all the others.
    recorded :
        (s t : Agent W) (r : CommandResult)
        → IsIdle s
        → All (IsIssued uuid s.next_uuid) s.command_results
        → Made uuid s t r
        → IsSerial (record_result uuid r t).1
    unfolding record_result
    recorded s t r idle issued m =
        let fresh : All (λ kr. kr.0 ≢ r.id) t.command_results =
          rw (m.results, m.id)
            (All-imp (IsIssued uuid s.next_uuid) (λ kr. kr.0 ≢ uuid s.next_uuid)
              (IsIssued-fresh uuid injective s.next_uuid) s.command_results issued) in
        let table : insert r.id r t.command_results ≡ s.command_results ++ (r.id, r) ∷ [] =
          insert_fresh r.id r t.command_results fresh ∙ ap (λ l. l ++ (r.id, r) ∷ []) m.results in
        record {
          phase = elim (m.work) [
            | inl (d, e) ↦ inl (
              rw table (All-append IsDone s.command_results ((r.id, r) ∷ []) idle.0 (d, tt)),
              e ∙ idle.1,
            )
            | inr (d, f, e) ↦ inr (
              s.command_results,
              r.id,
              r,
              f,
              table,
              idle.0,
              rw (← m.results) fresh,
              d,
              e ∙ ap (λ l. (r.id, f) ∷ l) idle.1,
            )
          ];
          issued =
              rw (table, m.next_uuid)
                (All-append (IsIssued uuid (suc s.next_uuid)) s.command_results ((r.id, r) ∷ [])
                  (All-imp (IsIssued uuid s.next_uuid) (IsIssued uuid (suc s.next_uuid))
                    (IsIssued-suc uuid s.next_uuid) s.command_results issued)
                  ((s.next_uuid, m.id, omega arith), tt));
        }

  IsSerial-Kept : (s t : Agent W) → Kept s t → IsSerial s → IsSerial t
  IsSerial-Kept s t k h = record {
    phase = elim (h.phase) [
      | inl (d, e) ↦ inl (rw k.results d, k.threads ∙ e)
      | inr (before, id, r, f, e, d, u, n, th) ↦
          inr (before, id, r, f, k.results ∙ e, d, u, n, k.threads ∙ th)
    ];
    issued = rw (k.results, k.next_uuid) h.issued;
  }

  -- If the last command, if any, has ended, then all have.
  IsIdle-of_last :
      (s : Agent W)
      → IsSerial s
      → (o : Option CommandResult) → last_or_none s.command_results ≡ o
      → MayGoOn o
      → IsIdle s
  IsIdle-of_last s h o e g = elim (h.phase) [
    | inl idle ↦ idle
    | inr (before, id, r, f, table, d, u, n, th) ↦
        let last : last_or_none s.command_results ≡ some r =
          rw table (last-append before (id, r)) in
        absurd (not_last o r (sym e ∙ last) g n)
  ]

  -- The table is as it was, or has one new entry.
  pub data Extends (s t : Agent W) : Type 0 where
    same : t.command_results ≡ s.command_results → Extends s t
    added :
        (k : String) (r : CommandResult)
        → t.command_results ≡ insert k r s.command_results
        → All (λ kr. kr.0 ≢ k) s.command_results
        → Extends s t

  abbrev Posted : Agent W → Agent W → Type 0
  Posted s t = IsSerial t × Extends s t

  module _ (injective : (i j : ℕ) → uuid i ≡ uuid j → i ≡ j) where
    after_attempt :
        (o : Result CommandResult) (s t : Agent W)
        → IsIdle s
        → IsSerial s
        → Effect uuid s o t
        → Posted s (continue o (record_result uuid) t).1
    after_attempt (ok r) s t idle h m = (
      recorded injective s t r idle h.issued m,
      unfold record_result in
          Extends.added r.id r (ap (insert r.id r) m.results) (
            rw m.id (
              All-imp (IsIssued uuid s.next_uuid) (λ kr. kr.0 ≢ uuid s.next_uuid)
                (IsIssued-fresh uuid injective s.next_uuid) s.command_results h.issued)),
    )
    after_attempt (err e) s t idle h k = (IsSerial-Kept s t k h, Extends.same k.results)

    attempted :
        (command_name extension_part command_part : String) (params : Fields) (s : Agent W)
        → IsSerial s
        → IsIdle s
        → Posted s
            ((attempt uuid command_name extension_part command_part params >>= record_result uuid)
              s).1
    unfolding ◌>>=◌
    attempted command_name extension_part command_part params s h idle =
        let made = attempt uuid command_name extension_part command_part params s in
        after_attempt made.0 s made.1 idle h
          (attempt-Effect uuid command_name extension_part command_part params s made.1 made.0 refl)

    checked :
        (o : Option CommandResult) (command_name extension_part command_part : String)
        (params : Fields) (s : Agent W)
        → last_or_none s.command_results ≡ o
        → IsSerial s
        → Posted s
            (continue
              (refuse_if_running o s).0
              (λ _.
                attempt uuid command_name extension_part command_part params >>= record_result uuid)
              (refuse_if_running o s).1).1
    unfolding refuse_if_running ◌>>=◌
    checked none command_name extension_part command_part params s e h =
        attempted command_name extension_part command_part params s h (IsIdle-of_last s h none e tt)
    checked (some r) command_name extension_part command_part params s e h =
        elim (Bool-cases (is_done r)) [
          | inl d ↦ rw d (
              attempted command_name extension_part command_part params s h
                (IsIdle-of_last s h (some r) e d))
          | inr d ↦ rw d (h, Extends.same refl)
        ]

    Posted-parts :
        (parts : Result (String × String)) (command_name : String) (params : Fields) (s : Agent W)
        → IsSerial s
        → Posted s (continue parts (execute_parts uuid command_name params) s).1
    Posted-parts (ok (extension_part, command_part)) command_name params s h =
        unfold execute_parts in
        checked (last_or_none s.command_results) command_name extension_part command_part params s
          refl h
    Posted-parts (err e) command_name params s h = (h, Extends.same refl)

    -- Whatever command is posted, the next state is serial.
    pub posted :
        (command_name : String) (params : Fields) (s : Agent W)
        → IsSerial s
        → IsSerial (execute_command uuid command_name params s).1
          × Extends s (execute_command uuid command_name params s).1
    unfolding execute_command
    posted command_name params s h =
        Posted-parts (split_command command_name) command_name params s h
