-- ===== src/Hardware/Dispatch/All.antt =====
-- What a dispatch to all managers collects, and which exceptions leave a dispatch.
use mathlib.Core.Path.{subst}
use test_frerfhrebfd.Common.{
  String, ◌≡◌, ◌≢◌, refl, false, Option, none, some, List, [], ◌∷◌, ◌⊎◌, inl, inr, arith, get,
  get-insert, insert, str_eq, true, sym, ap, ◌∙◌, Bool-cases, Option-cases, if◌then◌else◌,
}
use test_frerfhrebfd.Errors.Hierarchy.{is_subclass}
use test_frerfhrebfd.Errors.Build.{Error, hardware_manager_method_not_found}
use test_frerfhrebfd.Exec.{ok, err, Exec, Result-cases, ◌>>=◌, >>=-ok, >>=-err}
use test_frerfhrebfd.Hardware.Types.{World, Manager, Hardware}
use test_frerfhrebfd.Hardware.Managers.{get_managers}
use test_frerfhrebfd.Hardware.Dispatch.{
  is_incompatible, ask_managers, respond, collected, dispatch_to_all_managers, in_world,
}

pub method_not_found-IsAnswer :
    (method : String) → is_incompatible (hardware_manager_method_not_found method) ≡ false
unfolding hardware_manager_method_not_found is_subclass
method_not_found-IsAnswer method = refl

module _ {E A : Type 0} where
  collected_ok :
      (method : String) (rs rs' : List (String × A)) (w u : World E)
      → collected method rs w ≡ (ok rs', u)
      → (rs ≡ rs') × (rs' ≢ []) × (w ≡ u)
  unfolding collected
  collected_ok method [] rs' w u h = absurd (ground arith)
  collected_ok method (r ∷ rs) rs' w u h = (ground arith, ground arith, ground arith)

  pub collected_err :
      (method : String) (rs : List (String × A)) (w u : World E) (e : Error)
      → collected method rs w ≡ (err e, u)
      → is_incompatible e ≡ false
  collected_err method [] w u e h =
      unfold collected in ground (arith, method_not_found-IsAnswer method)
  collected_err method (r ∷ rs) w u e h = absurd (unfold collected in ground arith)

module _ {E V A : Type 0} (call : Manager E V → Option (Exec (World E) A)) where
  -- The managers are asked one after the other, each in the world that the one before has left:
  -- the answers are those of all that have the method and do not decline it.
  abbrev pub Asked : List (Manager E V) → World E → List (String × A) → World E → Type 0
  Asked [] w answers u = (answers ≡ []) × (w ≡ u)
  Asked (m ∷ ms) w answers u =
      ((call m ≡ none) × Asked ms w answers u)
      ⊎ ((f : Exec (World E) A) × (v : World E) × (call m ≡ some f)
          × (((a : A) × (rest : List (String × A)) × (f w ≡ (ok a, v))
                × (answers ≡ (m.class_name, a) ∷ rest)
                × Asked ms v rest u)
              ⊎ ((e : Error) × (f w ≡ (err e, v))
                  × (is_incompatible e ≡ true)
                  × Asked ms v answers u)))

  -- The last answer of a class.
  abbrev pub last_of : String → List (String × A) → Option A
  last_of k [] = none
  last_of k ((j, a) ∷ answers) = elim (last_of k answers) [
    | some b ↦ some b
    | none ↦ if str_eq j k then some a else none
  ]

  abbrev or_before : Option A → Option A → Option A
  or_before (some a) before = some a
  or_before none before = before

  or_before-none : (o : Option A) → or_before o none ≡ o
  or_before-none none = refl
  or_before-none (some a) = refl

  -- One manager's part in the responses.
  abbrev Responded :
      Option (Exec (World E) A)
      → String
      → World E
      → List (String × A)
      → List (String × A)
      → World E
      → Type 0
  Responded none name w rs rs' v = (rs' ≡ rs) × (w ≡ v)
  Responded (some f) name w rs rs' v =
      ((a : A) × (f w ≡ (ok a, v)) × (rs' ≡ insert name a rs))
      ⊎ ((e : Error) × (f w ≡ (err e, v)) × (is_incompatible e ≡ true) × (rs' ≡ rs))

  respond-Responded :
      (name : String) (o : Option (Exec (World E) A)) (rs rs' : List (String × A)) (w v : World E)
      → respond name o rs w ≡ (ok rs', v)
      → Responded o name w rs rs' v
  unfolding respond
  respond-Responded name none rs rs' w v h = (ground arith, ground arith)
  respond-Responded name (some f) rs rs' w v h = elim (Result-cases (f w).0) [
    | inl (x, e) ↦ inl (x, ground arith, ground arith)
    | inr (x, e) ↦ elim (Bool-cases (is_incompatible x)) [
      | inl k ↦ inr (x, ground arith, k, ground arith)
      | inr k ↦ absurd (ground arith)
    ]
  ]

  -- The responses that are there are overwritten by later answers of the same class.
  abbrev Merged : List (String × A) → List (String × A) → List (String × A) → Type 0
  Merged rs answers rs' = (k : String) → get k rs' ≡ or_before (last_of k answers) (get k rs)

  merge_insert :
      (name : String) (a : A) (rs rest rs' : List (String × A))
      → Merged (insert name a rs) rest rs'
      → Merged rs ((name, a) ∷ rest) rs'
  merge_insert name a rs rest rs' h k = elim (Option-cases (last_of k rest)) [
    | inr (b, e) ↦ h k ∙ rw e refl
    | inl e ↦
        h k
        ∙ rw e (
            get-insert name k a rs
            ∙ (elim (Bool-cases (str_eq name k)) [ inl s ↦ rw s refl | inr s ↦ rw s refl ]))
  ]

  ask_managers-Asked :
      (ms : List (Manager E V)) (rs rs' : List (String × A)) (w u : World E)
      → ask_managers call ms rs w ≡ (ok rs', u)
      → (answers : List (String × A)) × Asked ms w answers u × Merged rs answers rs'
  unfolding ask_managers
  ask_managers-Asked [] rs rs' w u h = ([], (refl, ground arith), λ k. ground arith)
  ask_managers-Asked (m ∷ ms) rs rs' w u h =
      let (rs1, v, e, h') =
        >>=-ok (respond m.class_name (call m) rs) (λ r. ask_managers call ms r) w rs' u h in
      let (answers, asked, merged) = ask_managers-Asked ms rs1 rs' v u h' in
      ask_one m ms rs rs1 rs' w v u answers (call m) refl
        (respond-Responded m.class_name (call m) rs rs1 w v e) asked merged
    where
      ask_one :
          (m : Manager E V) (ms : List (Manager E V)) (rs rs1 rs' : List (String × A))
          (w v u : World E) (answers : List (String × A)) (o : Option (Exec (World E) A))
          → call m ≡ o
          → Responded o m.class_name w rs rs1 v
          → Asked ms v answers u
          → Merged rs1 answers rs'
          → (all : List (String × A)) × Asked (m ∷ ms) w all u × Merged rs all rs'
      ask_one m ms rs rs1 rs' w v u answers none c (same, still) asked merged = (
        answers,
        inl (c, subst (λ x. Asked ms x answers u) (sym still) asked),
        subst (λ x. Merged x answers rs') same merged,
      )
      ask_one m ms rs rs1 rs' w v u answers (some f) c (inl (a, r, i)) asked merged = (
        (m.class_name, a) ∷ answers,
        inr (f, v, c, inl (a, answers, r, refl, asked)),
        merge_insert m.class_name a rs answers rs' (subst (λ x. Merged x answers rs') i merged),
      )
      ask_one m ms rs rs1 rs' w v u answers (some f) c (inr (e, r, d, i)) asked merged =
          (answers, inr (f, v, c, inr (e, r, d, asked)), subst (λ x. Merged x answers rs') i merged)

  respond_err :
      (name : String) (o : Option (Exec (World E) A)) (rs : List (String × A)) (w u : World E)
      (e : Error)
      → respond name o rs w ≡ (err e, u)
      → is_incompatible e ≡ false
  unfolding respond
  respond_err name none rs w u e h = absurd (ground arith)
  respond_err name (some f) rs w u e h = elim (Result-cases (f w).0) [
    | inl (x, r) ↦ absurd (ground arith)
    | inr (x, r) ↦ ground arith
  ]

  pub ask_managers_err :
      (ms : List (Manager E V)) (rs : List (String × A)) (w u : World E) (e : Error)
      → ask_managers call ms rs w ≡ (err e, u)
      → is_incompatible e ≡ false
  unfolding ask_managers
  ask_managers_err [] rs w u e h = absurd (ground arith)
  ask_managers_err (m ∷ ms) rs w u e h =
      elim (>>=-err (respond m.class_name (call m) rs) (λ r. ask_managers call ms r) w e u h) [
        | inl x ↦ respond_err m.class_name (call m) rs w u e x
        | inr (rs', v, x, k) ↦ ask_managers_err ms rs' v u e k
      ]

module _ {E V A : Type 0} (extension_manager : List (Manager E V)) (method : String)
    (call : Manager E V → Option (Exec (World E) A)) where
  -- A dispatch to all managers that succeeds has asked all of `_get_managers()` in their order,
  -- each in the world that the one before has left. There is at least one response, and under each class
  -- name stands the last answer of a manager of that class, of all those that have the method
  -- and do not decline it; under any other name there is none.
  pub dispatch_to_all-answers :
      (s s' t : Hardware E V) (ms : List (Manager E V)) (responses : List (String × A))
      → get_managers extension_manager s ≡ (ok ms, s')
      → dispatch_to_all_managers extension_manager method call s ≡ (ok responses, t)
      → (answers : List (String × A)) × (responses ≢ [])
        × Asked call ms s'.world answers t.world
        × ((k : String) → get k responses ≡ last_of call k answers)
  unfolding dispatch_to_all_managers
  dispatch_to_all-answers s s' t ms responses loaded h =
      let (ms', u, e, k) =
        >>=-ok (get_managers extension_manager)
          (λ l. in_world (ask_managers call l []) >>= λ r. in_world (collected method r)) s
          responses t h in
      let (rs, v, e', k') =
        >>=-ok (in_world (ask_managers call ms' [])) (λ r. in_world (collected method r)) u
          responses t k in
      let same : ms' ≡ ms = ground arith in
      let from : u.world ≡ s'.world = ground arith in
      let c = collected_ok method rs responses v.world t.world (ground arith) in
      let (answers, asked, merged) =
        ask_managers-Asked call ms' [] rs u.world v.world (ground arith) in
      let (all, some_answer, still) = c in
      (
        answers,
        some_answer,
        subst (λ x. Asked call ms x answers t.world) from
            (subst (λ x. Asked call ms u.world answers x) still
              (subst (λ x. Asked call x u.world answers v.world) same asked)),
        λ name.
            ap (get name) (sym all) ∙ merged name ∙ or_before-none call (last_of call name answers),
      )
