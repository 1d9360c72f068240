-- ===== src/Extensions/Clean/Versions/Checked.antt =====
-- When a clean step may run.
use test_frerfhrebfd.Common.{
  String, ◌≡◌, refl, sym, ◌∙◌, true, Option, none, some, List, [], ◌∷◌, get, eq_iff, arith,
}
use test_frerfhrebfd.Exec.{ok, err}
use test_frerfhrebfd.Exec.Ensures.{
  Ensures, Ensures-pure, Ensures-raise, Ensures-call, Ensures-if, Ensures-try, Ensures-bind,
  Ensures-imp,
}
use test_frerfhrebfd.Hardware.Types.{Node, Version, Manager, Hardware}
use test_frerfhrebfd.Hardware.Dispatch.{dispatch_to_managers, dispatch_to_all_managers, cache_node}
use test_frerfhrebfd.Extensions.Clean.Versions.{
  Versions, versions_of, is_version, is_within, same_versions, version_call, step_call,
  get_current_clean_version, compare_versions, check_clean_version, perform_step, perform,
  execute_clean_step, cleaning_failed,
}

is_version-same : (o : Option String) (s : String) → is_version o s ≡ true → o ≡ some s
unfolding is_version
is_version-same none s h = absurd (ground arith)
is_version-same (some t) s h = ground (arith, eq_iff t s)

is_within-get :
    (a b : Versions) (k v : String) → is_within a b ≡ true → get k a ≡ some v → get k b ≡ some v
unfolding is_within
is_within-get [] b k v h g = absurd (ground arith)
is_within-get ((name, version) ∷ a) b k v h g =
    ground (arith, eq_iff name k, is_version-same (get name b) version, is_within-get a b k v)

get-same :
    (k : String) (a b : Versions) (o p : Option String)
    → get k a ≡ o
    → get k b ≡ p
    → is_within a b ≡ true
    → is_within b a ≡ true
    → o ≡ p
get-same k a b none none g h i j = refl
get-same k a b none (some v) g h i j = sym g ∙ is_within-get b a k v j h
get-same k a b (some v) p g h i j = sym (is_within-get a b k v i g) ∙ h

-- Equal dictionaries have the same entries.
same_versions-get : (a b : Versions) → same_versions a b ≡ true → (k : String) → get k a ≡ get k b
unfolding same_versions
same_versions-get a b h k =
    get-same k a b (get k a) (get k b) refl refl (ground arith) (ground arith)

module _ {E V : Type 0} (extension_manager : List (Manager E V))
    (show_versions : Versions → String) where
  -- The managers, asked for their versions in the end, have given exactly the versions of
  -- `clean_version`, name by name. Without a `clean_version` nothing is asked.
  abbrev pub Agrees : Option Versions → Hardware E V → Hardware E V → Type 0
  Agrees none s t = s ≡ t
  Agrees (some clean_version) s t =
      (answers : List (String × Version)) × (dispatch_to_all_managers extension_manager
          "get_version" version_call s
        ≡ (ok answers, t))
      × ((k : String) → get k clean_version ≡ get k (versions_of answers []))

  get_current_clean_version-Ran :
      (s : Hardware E V)
      → Ensures
          (get_current_clean_version extension_manager)
          (λ versions t.
            (answers : List (String × Version)) × (dispatch_to_all_managers extension_manager
                "get_version" version_call s
              ≡ (ok answers, t))
            × (versions ≡ versions_of answers []))
          s
  unfolding get_current_clean_version
  get_current_clean_version-Ran s =
      Ensures-bind (dispatch_to_all_managers extension_manager "get_version" version_call) _
        (λ answers u h. Ensures-pure (answers, h, refl))

  check_clean_version-Agrees :
      (clean_version : Option Versions) (s : Hardware E V)
      → Ensures
          (check_clean_version extension_manager show_versions clean_version)
          (λ x. Agrees clean_version s)
          s
  unfolding check_clean_version compare_versions
  check_clean_version-Agrees none s = Ensures-pure refl
  check_clean_version-Agrees (some clean_version) s =
      Ensures-bind (get_current_clean_version extension_manager) _ (λ versions u h.
        let (answers, r, e) = (get_current_clean_version-Ran s).ensured versions u h in
        Ensures-if (same_versions clean_version versions)
          (λ b. Ensures-pure (answers, r, rw (sym e) (same_versions-get clean_version versions b)))
          (λ b. Ensures-raise))

  -- What a clean step that succeeds has gone through.
  abbrev pub Performed :
      Option String → Node → Option Versions → Hardware E V → V → Hardware E V → Type 0
  Performed step node clean_version s result t =
      (name : String) × (u v : Hardware E V) × (step ≡ some name)
      × (cache_node extension_manager node s ≡ (ok tt, u))
      × Agrees clean_version u v
      × (dispatch_to_managers extension_manager name (step_call node name) v ≡ (ok result, t))

  perform_step-Ran :
      (node : Node) (step : String) (s : Hardware E V)
      → Ensures
          (perform_step extension_manager show_versions node step)
          (λ result t.
            dispatch_to_managers extension_manager step (step_call node step) s ≡ (ok result, t))
          s
  unfolding perform_step
  perform_step-Ran node step s =
      Ensures-try (dispatch_to_managers extension_manager step (step_call node step))
        (λ e u. (err (cleaning_failed step e), u)) (Ensures-call (λ result t h. h))
        (λ e u h. Ensures-raise)

  perform-Performed :
      (step : Option String) (node : Node) (clean_version : Option Versions) (s u v : Hardware E V)
      → cache_node extension_manager node s ≡ (ok tt, u)
      → Agrees clean_version u v
      → Ensures
          (perform extension_manager show_versions node step)
          (Performed step node clean_version s)
          v
  unfolding perform
  perform-Performed none node clean_version s u v c a = Ensures-raise
  perform-Performed (some name) node clean_version s u v c a =
      Ensures-imp (perform_step-Ran node name v) (λ result t h. (name, u, v, refl, c, a, h))

  execute_clean_step-Ensures :
      (step : Option String) (node : Node) (clean_version : Option Versions) (s : Hardware E V)
      → Ensures
          (execute_clean_step extension_manager show_versions step node clean_version)
          (Performed step node clean_version s)
          s
  unfolding execute_clean_step
  execute_clean_step-Ensures step node clean_version s =
      Ensures-bind (cache_node extension_manager node) _ (λ x u h.
        Ensures-bind (check_clean_version extension_manager show_versions clean_version) _ (λ y v k.
          perform-Performed step node clean_version s u v h
            ((check_clean_version-Agrees clean_version u).ensured y v k)))

  -- `execute_clean_step` succeeds only if the step has a name, the node has been cached, the
  -- versions that the managers then give are those of the clean version that came with the command
  -- (if one came), and after that the dispatch of the step has succeeded with the result.
  pub execute_clean_step-Performed :
      (step : Option String) (node : Node) (clean_version : Option Versions) (s t : Hardware E V)
      (result : V)
      → execute_clean_step extension_manager show_versions step node clean_version s
        ≡ (ok result, t)
      → Performed step node clean_version s result t
  execute_clean_step-Performed step node clean_version s t result h =
      (execute_clean_step-Ensures step node clean_version s).ensured result t h
