-- ===== src/Hardware/Managers/Order.antt =====
-- The list that `_get_managers` hands out: most specific manager first, and every one of them
-- supported; the list is made once.
use mathlib.Core.List.{Perm}
use mathlib.Core.List.Perm
use test_frerfhrebfd.Common.{
  ◌≤◌, ◌<◌, ◌≡◌, refl, sym, true, false, List, [], ◌∷◌, arith, All, keep, Bool-cases, inl, inr,
}
use test_frerfhrebfd.Errors.Hierarchy.{ErrorClass}
use test_frerfhrebfd.Errors.Build.{Error, rest_error_init}
use test_frerfhrebfd.Exec.{Result, ok, err}
use test_frerfhrebfd.Hardware.Types.{Manager, Hardware}
use test_frerfhrebfd.Hardware.Sorting.{sorted, keep-sorted-perm, sorted-IsSorted, IsSorted}
use test_frerfhrebfd.Hardware.Managers.{
  compare_extensions, is_supported, preferred_managers, store_managers, managers_or_load,
  get_managers,
}

module _ {E V : Type 0} where
  -- Each manager's level is at least that of every later one, and none has level 0.
  abbrev pub IsRanked : List (Manager E V) → Type 0
  IsRanked [] = Unit
  IsRanked (m ∷ ms) =
      (0 < m.evaluate_hardware_support)
      × All (λ n. n.evaluate_hardware_support ≤ m.evaluate_hardware_support) ms
      × IsRanked ms

  keep_below :
      (m : Manager E V) (l : List (Manager E V))
      → All (λ n. compare_extensions m n ≡ true) l
      → All (λ n. n.evaluate_hardware_support ≤ m.evaluate_hardware_support) (keep is_supported l)
  unfolding compare_extensions
  keep_below m [] h = tt
  keep_below m (n ∷ l) h = elim (Bool-cases (is_supported n)) [
    | inl e ↦ rw e (ground arith, keep_below m l h.1)
    | inr e ↦ rw e (keep_below m l h.1)
  ]

  keep-IsRanked :
      (l : List (Manager E V)) → IsSorted compare_extensions l → IsRanked (keep is_supported l)
  keep-IsRanked [] h = tt
  keep-IsRanked (m ∷ l) h = elim (Bool-cases (is_supported m)) [
    | inl e ↦ rw e (ground arith, keep_below m l h.0, keep-IsRanked l h.1)
    | inr e ↦ rw e (keep-IsRanked l h.1)
  ]

  compare_extensions_total :
      (x y : Manager E V) → compare_extensions x y ≡ false → compare_extensions y x ≡ true
  unfolding compare_extensions
  compare_extensions_total x y h = ground arith

  compare_extensions_trans :
      (x y z : Manager E V)
      → compare_extensions x y ≡ true
      → compare_extensions y z ≡ true
      → compare_extensions x z ≡ true
  unfolding compare_extensions
  compare_extensions_trans x y z h k = ground arith

  preferred_managers-IsRanked : (l : List (Manager E V)) → IsRanked (preferred_managers l)
  unfolding preferred_managers
  preferred_managers-IsRanked l =
      keep-IsRanked (sorted compare_extensions l)
        (sorted-IsSorted compare_extensions compare_extensions_total compare_extensions_trans l)

  -- What a first call of `_get_managers` gives, by the managers that it keeps.
  abbrev pub Loaded : List (Manager E V) → Result (List (Manager E V)) → Type 0
  Loaded extension_manager (ok ms) = IsRanked ms × Perm ms (keep is_supported extension_manager)
  Loaded extension_manager (err e) =
      (keep is_supported extension_manager ≡ [])
      × (e ≡ rest_error_init ErrorClass.hardware_manager_not_found "")

  store_managers-Loaded :
      (extension_manager ms : List (Manager E V)) (s : Hardware E V)
      → IsRanked ms
      → Perm ms (keep is_supported extension_manager)
      → Loaded extension_manager (store_managers ms s).0
  unfolding store_managers
  store_managers-Loaded extension_manager [] s r p = (sym (Perm.nil-eq p), refl)
  store_managers-Loaded extension_manager (m ∷ ms) s r p = (r, p)

  managers_or_load-Loaded :
      (extension_manager cache : List (Manager E V)) (s : Hardware E V)
      → cache ≡ []
      → Loaded extension_manager (managers_or_load extension_manager cache s).0
  unfolding managers_or_load
  managers_or_load-Loaded extension_manager [] s e =
      store_managers-Loaded extension_manager (preferred_managers extension_manager) s
        (preferred_managers-IsRanked extension_manager)
        (keep-sorted-perm compare_extensions is_supported extension_manager)
  managers_or_load-Loaded extension_manager (m ∷ ms) s e = cc

  -- The first call of `_get_managers` gives the supported ones of the managers that stevedore
  -- finds, each level at least that of every later manager; it raises HardwareManagerNotFound,
  -- and nothing else, only if none is supported.
  pub get_managers-Loaded :
      (extension_manager : List (Manager E V)) (s : Hardware E V)
      → s.global_managers ≡ []
      → Loaded extension_manager (get_managers extension_manager s).0
  unfolding get_managers
  get_managers-Loaded extension_manager s e =
      managers_or_load-Loaded extension_manager s.global_managers s e

  store_cached :
      (later kept : List (Manager E V)) (s t : Hardware E V) (ms : List (Manager E V))
      → store_managers kept s ≡ (ok ms, t)
      → (managers_or_load later t.global_managers t ≡ (ok ms, t)) × (t.world ≡ s.world)
  unfolding store_managers managers_or_load
  store_cached later [] s t ms h = ground arith
  store_cached later (m ∷ kept) s t ms h = ground arith

  load_cached :
      (found later cache : List (Manager E V)) (s t : Hardware E V) (ms : List (Manager E V))
      → s.global_managers ≡ cache
      → managers_or_load found cache s ≡ (ok ms, t)
      → (managers_or_load later t.global_managers t ≡ (ok ms, t)) × (t.world ≡ s.world)
  unfolding managers_or_load
  load_cached found later [] s t ms e h = store_cached later (preferred_managers found) s t ms h
  load_cached found later (m ∷ cache) s t ms e h = ground arith

  -- A successful `_get_managers` leaves its list in the cache and the rest alone, so that a later
  -- call gives the same list, whatever stevedore would find then.
  pub get_managers_cached :
      (found later : List (Manager E V)) (s t : Hardware E V) (ms : List (Manager E V))
      → get_managers found s ≡ (ok ms, t)
      → (get_managers later t ≡ (ok ms, t)) × (t.world ≡ s.world)
  unfolding get_managers
  get_managers_cached found later s t ms h = load_cached found later s.global_managers s t ms refl h

  store_managers_err :
      (ms : List (Manager E V)) (s t : Hardware E V) (e : Error)
      → store_managers ms s ≡ (err e, t)
      → e ≡ rest_error_init ErrorClass.hardware_manager_not_found ""
  unfolding store_managers
  store_managers_err [] s t e h = ground arith
  store_managers_err (m ∷ ms) s t e h = absurd (ground arith)

  managers_or_load_err :
      (found cache : List (Manager E V)) (s t : Hardware E V) (e : Error)
      → managers_or_load found cache s ≡ (err e, t)
      → e ≡ rest_error_init ErrorClass.hardware_manager_not_found ""
  unfolding managers_or_load
  managers_or_load_err found [] s t e h = store_managers_err (preferred_managers found) s t e h
  managers_or_load_err found (m ∷ cache) s t e h = absurd (ground arith)

  pub get_managers_err :
      (found : List (Manager E V)) (s t : Hardware E V) (e : Error)
      → get_managers found s ≡ (err e, t)
      → e ≡ rest_error_init ErrorClass.hardware_manager_not_found ""
  unfolding get_managers
  get_managers_err found s t e h = managers_or_load_err found s.global_managers s t e h
