-- ===== src/Extensions/Base/Commands/Effects.antt =====
-- What one call of a command does to the agent's own state.
use test_frerfhrebfd.Common.{
  ℕ, suc, String, ◌≡◌, refl, ap, ◌∙◌, true, false, Option, none, some, ◌∷◌, ◌⊎◌, inl, inr, arith,
  get,
}
use test_frerfhrebfd.Errors.Build.{Error}
use test_frerfhrebfd.Exec.{Result, ok, err, Exec, recover, continue}
use test_frerfhrebfd.Value.{Value, Fields}
use test_frerfhrebfd.Extensions.Base.Results.{CommandResult, is_done}
use test_frerfhrebfd.Extensions.Base.Commands.{
  Agent, Extension, Command, call, call_or_error, execute, find_extension, handle, attempt,
}

module _ {W : Type 0} where
  -- Nothing but the world has changed.
  pub record Kept (s t : Agent W) : Type 0 where
    pub results : t.command_results ≡ s.command_results
    pub threads : t.threads ≡ s.threads
    pub next_uuid : t.next_uuid ≡ s.next_uuid

module _ {W : Type 0} (uuid : ℕ → String) where
  -- A new result under a new UUID: done, or running with a thread of its own.
  pub record Made (s t : Agent W) (r : CommandResult) : Type 0 where
    pub results : t.command_results ≡ s.command_results
    pub next_uuid : t.next_uuid ≡ suc s.next_uuid
    pub id : r.id ≡ uuid s.next_uuid
    pub work :
        ((is_done r ≡ true) × (t.threads ≡ s.threads))
        ⊎ ((is_done r ≡ false) × (f : Exec W Value) × (t.threads ≡ (r.id, f) ∷ s.threads))

  -- A command either raises, and leaves all but the world alone, or makes a result.
  -- A command either raises, and leaves all but the world alone, or makes a result.
  abbrev pub Effect : Agent W → Result CommandResult → Agent W → Type 0
  Effect s (ok r) t = Made s t r
  Effect s (err e) t = Kept s t

  call-Effect :
      (command_name : String) (c : Command W) (params : Fields) (s t : Agent W)
      (o : Result CommandResult)
      → call uuid command_name c params s ≡ (o, t)
      → Effect s o t
  unfolding call is_done
  call-Effect command_name (Command.sync_command none func) params s t (ok r) h = record {
    results = ground arith;
    next_uuid = ground arith;
    id = ground arith;
    work = ground arith;
  }
  call-Effect command_name (Command.sync_command (some v) func) params s t (ok r) h = record {
    results = ground arith;
    next_uuid = ground arith;
    id = ground arith;
    work = ground arith;
  }
  call-Effect command_name (Command.async_command none func) params s t (ok r) h = record {
    results = ground arith;
    next_uuid = ground arith;
    id = ground arith;
    work = inr (ground arith, func params, ground arith);
  }
  call-Effect command_name (Command.async_command (some v) func) params s t (ok r) h = record {
    results = ground arith;
    next_uuid = ground arith;
    id = ground arith;
    work = inr (ground arith, func params, ground arith);
  }
  call-Effect command_name (Command.sync_command none func) params s t (err e) h = ground arith
  call-Effect command_name (Command.sync_command (some v) func) params s t (err e) h = ground arith
  call-Effect command_name (Command.async_command none func) params s t (err e) h = ground arith
  call-Effect command_name (Command.async_command (some v) func) params s t (err e) h = ground arith

  handle-Effect :
      (command_name extension_part : String) (params : Fields) (e : Error) (s t : Agent W)
      (o : Result CommandResult)
      → handle uuid command_name extension_part params e s ≡ (o, t)
      → Effect s o t
  unfolding handle is_done
  handle-Effect command_name extension_part params e s t (ok r) h = record {
    results = ground arith;
    next_uuid = ground arith;
    id = ground arith;
    work = ground arith;
  }
  handle-Effect command_name extension_part params e s t (err x) h = ground arith

  found-Effect :
      (c : Option (Command W)) (command_name : String) (params : Fields) (s t : Agent W)
      (o : Result CommandResult)
      → call_or_error uuid c command_name params s ≡ (o, t)
      → Effect s o t
  found-Effect none command_name params s t (ok r) h = absurd (unfold call_or_error in ground arith)
  found-Effect none command_name params s t (err e) h = unfold call_or_error in ground arith
  found-Effect (some c) command_name params s t o h =
      call-Effect command_name c params s t o (unfold call_or_error in h)

  body-Effect :
      (ext : Result (Extension W)) (command_part : String) (params : Fields) (s t : Agent W)
      (o : Result CommandResult)
      → continue ext (λ x. execute uuid x command_part params) s ≡ (o, t)
      → Effect s o t
  body-Effect (ok ext) command_part params s t o h =
      found-Effect (get command_part ext) command_part params s t o (unfold execute in h)
  body-Effect (err e) command_part params s t (ok r) h = absurd (ground arith)
  body-Effect (err e) command_part params s t (err x) h = ground arith

  Kept-Effect :
      (s u t : Agent W) (o : Result CommandResult) → Kept s u → Effect u o t → Effect s o t
  Kept-Effect s u t (ok r) k m = record {
    results = m.results ∙ k.results;
    next_uuid = m.next_uuid ∙ ap suc k.next_uuid;
    id = m.id ∙ ap uuid k.next_uuid;
    work = elim (m.work) [
      | inl (d, e) ↦ inl (d, e ∙ k.threads)
      | inr (d, f, e) ↦ inr (d, f, e ∙ ap (λ l. (r.id, f) ∷ l) k.threads)
    ];
  }
  Kept-Effect s u t (err e) k m = record {
    results = m.results ∙ k.results;
    threads = m.threads ∙ k.threads;
    next_uuid = m.next_uuid ∙ k.next_uuid;
  }

  recover-Effect :
      (command_name extension_part : String) (params : Fields) (r : Result CommandResult)
      (s u t : Agent W) (o : Result CommandResult)
      → Effect s r u
      → recover r (handle uuid command_name extension_part params) u ≡ (o, t)
      → Effect s o t
  recover-Effect command_name extension_part params (ok r) s u t (ok x) m h =
      let a : x ≡ r = ground arith in let b : t ≡ u = ground arith in rw (a, b) m
  recover-Effect command_name extension_part params (ok r) s u t (err e) m h = absurd (ground arith)
  recover-Effect command_name extension_part params (err e) s u t o m h =
      Kept-Effect s u t o m (handle-Effect command_name extension_part params e u t o h)

  -- `execute_command` past its checks: the try statement with its handlers.
  pub attempt-Effect :
      (command_name extension_part command_part : String) (params : Fields) (s t : Agent W)
      (o : Result CommandResult)
      → attempt uuid command_name extension_part command_part params s ≡ (o, t)
      → Effect s o t
  unfolding attempt
  attempt-Effect command_name extension_part command_part params s t o h =
      let body =
        continue (find_extension s.ext_mgr extension_part) (λ x. execute uuid x command_part params)
          s in
      recover-Effect command_name extension_part params body.0 s body.1 t o
        (body-Effect (find_extension s.ext_mgr extension_part) command_part params s body.1 body.0
          refl)
        h
