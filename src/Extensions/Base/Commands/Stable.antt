-- ===== src/Extensions/Base/Commands/Stable.antt =====
-- What has ended stays as it is, and what runs can end.
use test_frerfhrebfd.Common.{
  ℕ, suc, String, ◌≡◌, ◌≢◌, refl, ◌∙◌, true, false, none, some, [], ◌∷◌, ◌++◌, inl, inr, arith, get,
  get-insert, str_eq, eq_iff, eq_refl, All, Bool-cases,
}
use test_frerfhrebfd.Extensions.Base.Results.{CommandResult, is_done, run}
use test_frerfhrebfd.Extensions.Base.Commands.{Agent, complete, finish, update}
use test_frerfhrebfd.Extensions.Base.Commands.Serial.{Results, IsBusy, IsSerial, Extends, posted}
use test_frerfhrebfd.Extensions.Base.Commands.Steps.{
  Step, posts, ends, Reach, here, next, Reach-IsSerial, complete_unknown, complete_known,
  only_thread, update-append, done-run,
}

get_fresh : (k : String) (results : Results) → All (λ kr. kr.0 ≢ k) results → get k results ≡ none
get_fresh k [] h = refl
get_fresh k ((j, r) ∷ results) h = ground (arith, h.0, eq_iff j k, get_fresh k results h.1)

get_last :
    (k : String) (before : Results) (r : CommandResult)
    → All (λ kr. kr.0 ≢ k) before
    → get k (before ++ (k, r) ∷ []) ≡ some r
get_last k [] r h = rw (eq_refl k)
get_last k ((j, x) ∷ before) r h = ground (arith, h.0, eq_iff j k, get_last k before r h.1)

get-update_ne :
    (id k : String) (g : CommandResult → CommandResult) (results : Results)
    → str_eq id k ≡ false
    → get k (update id g results) ≡ get k results
unfolding update
get-update_ne id k g [] h = refl
get-update_ne id k g ((j, r) ∷ results) h =
    ground (arith, eq_iff j id, eq_iff j k, eq_iff id k, get-update_ne id k g results)

get_running :
    {W : Type 0} (s : Agent W) (before : Results) (j : String) (x : CommandResult)
    → s.command_results ≡ before ++ (j, x) ∷ []
    → All (λ kr. kr.0 ≢ j) before
    → get j s.command_results ≡ some x
get_running s before j x table u = rw table (get_last j before x u)

module _ {W : Type 0} (uuid : ℕ → String) where
  Extends-get :
      (s t : Agent W) (k : String) (r : CommandResult)
      → Extends uuid s t
      → get k s.command_results ≡ some r
      → get k t.command_results ≡ some r
  Extends-get s t k r (Extends.same e) g = rw e g
  Extends-get s t k r (Extends.added j x e fresh) g = rw e (
      ground (
        arith,
        get-insert j k x s.command_results,
        eq_iff j k,
        get_fresh j s.command_results fresh,
      ))

  complete-get :
      (id : String) (s : Agent W) (k : String) (r : CommandResult)
      → IsBusy s
      → get k s.command_results ≡ some r
      → is_done r ≡ true
      → get k (complete id s).command_results ≡ some r
  complete-get id s k r (before, j, x, f, table, d, u, n, th) g done =
      elim (Bool-cases (str_eq j id)) [
        | inl e ↦ rw (← (eq_iff j id).0 e) (
            rw (complete_known j s f (only_thread j f s.threads th).0) (
              unfold finish in
              elim (Bool-cases (str_eq j k)) [
                | inl same ↦ absurd (ground (arith, eq_iff j k, get_running s before j x table u))
                | inr other ↦ get-update_ne j k (run (f s.world).0) s.command_results other ∙ g
              ]))
        | inr e ↦ rw (complete_unknown id s (rw th (rw e))) g
      ]

  module _ (injective : (i j : ℕ) → uuid i ≡ uuid j → i ≡ j) where
    Step-get :
        (k : String) (r : CommandResult) {s t : Agent W}
        → Step uuid s t
        → IsSerial uuid s
        → get k s.command_results ≡ some r
        → is_done r ≡ true
        → get k t.command_results ≡ some r
    Step-get k r {s} (posts command_name params e) h g d =
        rw e (Extends-get s _ k r (posted uuid injective command_name params s h).1 g)
    Step-get k r {s} (ends id e) h g d = elim (h.phase) [
      | inl idle ↦ rw e (rw (complete_unknown id s (rw idle.1)) g)
      | inr busy ↦ rw e (complete-get id s k r busy g d)
    ]

    -- A result that is done is never changed and never lost, whatever is posted and whichever
    -- threads end afterwards.
    pub Reach-get :
        (k : String) (r : CommandResult) {s t : Agent W}
        → IsSerial uuid s
        → get k s.command_results ≡ some r
        → is_done r ≡ true
        → Reach uuid s t
        → get k t.command_results ≡ some r
    Reach-get k r h g d here = g
    Reach-get k r h g d (next way step) =
        Step-get k r step (Reach-IsSerial uuid injective h way) (Reach-get k r h g d way) d

module _ {W : Type 0} where
  -- In a busy state the one thread can end; then its result is done, there is no thread left, and
  -- one more heartbeat has been asked for.
  pub busy_ends :
      (s : Agent W)
      → IsBusy s
      → (id : String) × (r : CommandResult) × (get id (complete id s).command_results ≡ some r)
        × (is_done r ≡ true)
        × ((complete id s).threads ≡ [])
        × ((complete id s).heartbeats ≡ suc s.heartbeats)
  busy_ends s (before, j, x, f, table, d, u, n, th) =
      let o = (f s.world).0 in
      let known = only_thread j f s.threads th in
      let whole = complete_known j s f known.0 in
      (
        j,
        run o x,
        rw whole (
            unfold finish in
            rw table (rw (update-append j (run o) before x u) (get_last j before (run o x) u))),
        done-run o x,
        rw whole (unfold finish in known.1),
        rw whole (unfold finish in refl),
      )
