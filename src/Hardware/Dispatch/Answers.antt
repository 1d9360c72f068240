-- ===== src/Hardware/Dispatch/Answers.antt =====
-- Which manager a dispatch reaches, and what a dispatch to all of them collects.
use test_frerfhrebfd.Common.{
  String, ◌≡◌, refl, ap, true, false, Option, none, some, List, [], ◌∷◌, ◌++◌, ◌⊎◌, inl, inr, arith,
  Bool-cases,
}
use test_frerfhrebfd.Errors.Build.{Error, hardware_manager_method_not_found}
use test_frerfhrebfd.Exec.{Result, ok, err, Exec, Result-cases}
use test_frerfhrebfd.Hardware.Types.{World, Manager}
use test_frerfhrebfd.Hardware.Dispatch.{is_incompatible, ask_manager, try_managers}

-- An answer ends the search: a value, or an exception of another class.
abbrev pub IsAnswer : {A : Type 0} → Result A → Type 0
IsAnswer (ok a) = Unit
IsAnswer (err e) = is_incompatible e ≡ false

IsAnswer-cases :
    {A : Type 0} (r : Result A)
    → IsAnswer r ⊎ ((e : Error) × (r ≡ err e) × (is_incompatible e ≡ true))
IsAnswer-cases (ok a) = inl tt
IsAnswer-cases (err e) = elim (Bool-cases (is_incompatible e)) [
  | inl i ↦ inr (e, refl, i)
  | inr i ↦ inl i
]

module _ {E A : Type 0} where
  ask_manager_answer :
      (f next : Exec (World E) A) (w : World E)
      → IsAnswer (f w).0
      → ask_manager (some f) next w ≡ f w
  unfolding ask_manager
  ask_manager_answer f next w a = elim (Result-cases (f w).0) [
    | inl (x, e) ↦ ground arith
    | inr (x, e) ↦ ground arith
  ]

  ask_manager_incompatible :
      (f next : Exec (World E) A) (w : World E) (e : Error)
      → (f w).0 ≡ err e
      → is_incompatible e ≡ true
      → ask_manager (some f) next w ≡ next (f w).1
  unfolding ask_manager
  ask_manager_incompatible f next w e r i = ground arith

module _ {E V A : Type 0} (call : Manager E V → Option (Exec (World E) A)) where
  -- A manager passes the call on: its class lacks the method, or the method raises
  -- IncompatibleHardwareMethodError, which may have changed the world before.
  pub data Declines (m : Manager E V) (w u : World E) : Type 0 where
    lacks : call m ≡ none → u ≡ w → Declines m w u
    incompatible :
        (f : Exec (World E) A) (e : Error)
        → call m ≡ some f
        → (f w).0 ≡ err e
        → u ≡ (f w).1
        → is_incompatible e ≡ true
        → Declines m w u

  abbrev pub AllDecline : List (Manager E V) → World E → World E → Type 0
  AllDecline [] w u = u ≡ w
  AllDecline (m ∷ ms) w u = (v : World E) × Declines m w v × AllDecline ms v u

  module _ (method : String) where
    -- What a dispatch comes to over the managers `ms` from the world `w`: the answer of a manager
    -- before which all decline, or an error if all do.
    abbrev pub Outcome : List (Manager E V) → World E → Result A × World E → Type 0
    Outcome ms w o =
        ((before after : List (Manager E V)) × (m : Manager E V) × (u : World E) × (f : Exec
            (World E) A)
          × (ms ≡ before ++ m ∷ after)
          × AllDecline before w u
          × (call m ≡ some f)
          × (o ≡ f u)
          × IsAnswer (f u).0)
        ⊎ ((u : World E) × AllDecline ms w u
            × (o ≡ (err (hardware_manager_method_not_found method), u)))

    Outcome-cons :
        (m : Manager E V) (ms : List (Manager E V)) (w v : World E) (o : Result A × World E)
        → Declines m w v
        → Outcome ms v o
        → Outcome (m ∷ ms) w o
    Outcome-cons m ms w v o d (inl (before, after, n, u, f, e, ds, c, r, a)) =
        inl (m ∷ before, after, n, u, f, ap (λ l. m ∷ l) e, (v, d, ds), c, r, a)
    Outcome-cons m ms w v o d (inr (u, ds, r)) = inr (u, (v, d, ds), r)

    ask_manager-Outcome :
        (o : Option (Exec (World E) A)) (m : Manager E V) (ms : List (Manager E V)) (w : World E)
        → call m ≡ o
        → ((v : World E) → Outcome ms v (try_managers method call ms v))
        → Outcome (m ∷ ms) w (ask_manager o (try_managers method call ms) w)
    unfolding ask_manager
    ask_manager-Outcome none m ms w c ih = Outcome-cons m ms w w _ (Declines.lacks c refl) (ih w)
    ask_manager-Outcome (some f) m ms w c ih = elim (IsAnswer-cases (f w).0) [
      | inl a ↦ inl (
        [],
        ms,
        m,
        w,
        f,
        refl,
        refl,
        c,
        ask_manager_answer f (try_managers method call ms) w a,
        a,
      )
      | inr (e, r, i) ↦
          rw (ask_manager_incompatible f (try_managers method call ms) w e r i)
            (Outcome-cons m ms w (f w).1 _ (Declines.incompatible f e c r refl i) (ih (f w).1))
    ]

    -- The first manager in the order of the list that does not decline answers, and nothing after
    -- it is asked; its value or exception is the result. If all decline, the result is
    -- HardwareManagerMethodNotFound, after the last one's changes to the world.
    pub try_managers-Outcome :
        (ms : List (Manager E V)) (w : World E) → Outcome ms w (try_managers method call ms w)
    unfolding try_managers
    try_managers-Outcome [] w = inr (w, refl, refl)
    try_managers-Outcome (m ∷ ms) w =
        ask_manager-Outcome (call m) m ms w refl (try_managers-Outcome ms)
