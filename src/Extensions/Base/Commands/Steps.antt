-- ===== src/Extensions/Base/Commands/Steps.antt =====
-- The agent's commands as a system of steps: a posted command, or a thread that ends.
use test_frerfhrebfd.Common.{
  ℕ, ◌<◌, String, ◌≡◌, ◌≢◌, refl, true, none, some, List, [], ◌∷◌, ◌++◌, inl, inr, arith, get,
  str_eq, eq_iff, eq_refl, All, All-append, Bool-cases,
}
use test_frerfhrebfd.Exec.{Result, ok, err, Exec}
use test_frerfhrebfd.Value.{Value, Fields}
use test_frerfhrebfd.Extensions.Base.Results.{CommandResult, is_done, run}
use test_frerfhrebfd.Extensions.Base.Commands.{
  Agent, Extension, Thread, execute_command, complete, finish, update, without,
}
use test_frerfhrebfd.Extensions.Base.Commands.Serial.{
  Results, IsDone, IsBusy, IsIssued, IsSerial, posted,
}

-- `ExecuteCommandMixin.__init__`, with the extensions loaded
abbrev pub started : {W : Type 0} → List (String × Extension W) → W → Agent W
started ext_mgr world = record {
  command_results = [];
  ext_mgr = some ext_mgr;
  threads = [];
  next_uuid = 0;
  heartbeats = 0;
  world = world;
}

pub done-run : (o : Result Value) (r : CommandResult) → is_done (run o r) ≡ true
unfolding run is_done
done-run (ok v) r = refl
done-run (err e) r = ground arith

pub update-append :
    (id : String) (g : CommandResult → CommandResult) (before : Results) (r : CommandResult)
    → All (λ kr. kr.0 ≢ id) before
    → update id g (before ++ (id, r) ∷ []) ≡ before ++ (id, g r) ∷ []
unfolding update
update-append id g [] r h = ground (arith, eq_refl id)
update-append id g ((j, x) ∷ before) r h =
    ground (arith, h.0, eq_iff j id, update-append id g before r h.1)

-- A change in place keeps the keys.
All-update :
    (P : String → Type 0) (id : String) (g : CommandResult → CommandResult) (results : Results)
    → All (λ kr. P kr.0) results
    → All (λ kr. P kr.0) (update id g results)
unfolding update
All-update P id g [] h = tt
All-update P id g ((j, r) ∷ results) h = elim (Bool-cases (str_eq j id)) [
  | inl e ↦ rw e h
  | inr e ↦ rw e (h.0, All-update P id g results h.1)
]

module _ {W : Type 0} where
  pub complete_unknown : (id : String) (s : Agent W) → get id s.threads ≡ none → complete id s ≡ s
  unfolding complete
  complete_unknown id s e = rw (e, finish)

  pub complete_known :
      (id : String) (s : Agent W) (f : Exec W Value)
      → get id s.threads ≡ some f
      → complete id s ≡ finish (some f) id s
  unfolding complete
  complete_known id s f e = rw (e, finish)

  pub only_thread :
      (id : String) (f : Exec W Value) (threads : List (Thread W))
      → threads ≡ (id, f) ∷ []
      → (get id threads ≡ some f) × (without id threads ≡ [])
  unfolding without
  only_thread id f threads e = (rw e (rw (eq_refl id)), rw e (rw (eq_refl id)))

module _ {W : Type 0} (uuid : ℕ → String) where
  pub data Step (s t : Agent W) : Type 0 where
    posts :
        (command_name : String) (params : Fields)
        → t ≡ (execute_command uuid command_name params s).1
        → Step s t
    ends : (id : String) → t ≡ complete id s → Step s t

  pub data Reach (s : Agent W) : Agent W → Type 0 where
    here : Reach s s
    next : {t u : Agent W} → Reach s t → Step t u → Reach s u

  finished :
      (id : String) (s : Agent W) (before : Results) (r : CommandResult) (f : Exec W Value)
      → s.command_results ≡ before ++ (id, r) ∷ []
      → All IsDone before
      → All (λ kr. kr.0 ≢ id) before
      → s.threads ≡ (id, f) ∷ []
      → All (IsIssued uuid s.next_uuid) s.command_results
      → IsSerial uuid (finish (some f) id s)
  unfolding finish
  finished id s before r f table d u th issued =
      let o = (f s.world).0 in
      let changed : update id (run o) s.command_results ≡ before ++ (id, run o r) ∷ [] =
        rw table (update-append id (run o) before r u) in
      record {
        phase = inl (
          rw changed (All-append IsDone before ((id, run o r) ∷ []) d (done-run o r, tt)),
          (only_thread id f s.threads th).1,
        );
        issued =
            All-update (λ k. (i : ℕ) × (k ≡ uuid i) × (i < s.next_uuid)) id (run o)
              s.command_results issued;
      }

  -- The end of a thread.
  busy-complete :
      (id : String) (s : Agent W) → IsSerial uuid s → IsBusy s → IsSerial uuid (complete id s)
  busy-complete id s h (before, k, r, f, table, d, u, n, th) = elim (Bool-cases (str_eq k id)) [
    | inl e ↦ rw (← (eq_iff k id).0 e) (
        rw (complete_known k s f (only_thread k f s.threads th).0)
          (finished k s before r f table d u th h.issued))
    | inr e ↦ rw (complete_unknown id s (rw th (rw e))) h
  ]

  module _ (injective : (i j : ℕ) → uuid i ≡ uuid j → i ≡ j) where
    pub Step-IsSerial : {s t : Agent W} → Step s t → IsSerial uuid s → IsSerial uuid t
    Step-IsSerial {s} (posts command_name params e) h =
        rw e (posted uuid injective command_name params s h).0
    Step-IsSerial {s} (ends id e) h = elim (h.phase) [
      | inl idle ↦ rw e (rw (complete_unknown id s (rw idle.1)) h)
      | inr busy ↦ rw e (busy-complete id s h busy)
    ]

    -- From the start, in every order of posted commands and ending threads: all results but
    -- perhaps the last are done, and a result that is not done is the last one and has the only
    -- thread.
    pub Reach-IsSerial : {s t : Agent W} → IsSerial uuid s → Reach s t → IsSerial uuid t
    Reach-IsSerial h here = h
    Reach-IsSerial h (next r st) = Step-IsSerial st (Reach-IsSerial h r)
