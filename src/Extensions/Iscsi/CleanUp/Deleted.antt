-- ===== src/Extensions/Iscsi/CleanUp/Deleted.antt =====
-- What `clean_up` deletes.
use test_frerfhrebfd.Common.{
  String, true, Option, none, some, List, [], ◌∷◌, ◌++◌, str_eq, eq_iff, All, ◌≡◌, refl, ◌⊎◌, inl,
  inr, arith, ap, Bool-cases,
}
use test_frerfhrebfd.Errors.Hierarchy.{ErrorClass}
use test_frerfhrebfd.Errors.Build.{Error}
use test_frerfhrebfd.Exec.{Result, ok, err}
use test_frerfhrebfd.Exec.Ensures.{
  Ensures, Ensures-pure, Ensures-raise, Ensures-call, Ensures-if, Ensures-except, Ensures-bind,
  Ensures-imp,
}
use test_frerfhrebfd.Extensions.Iscsi.{Storage, Root, Targets, is_unavailable}
use test_frerfhrebfd.Extensions.Iscsi.CleanUp.{
  find_storage, root_or_none, get_root, delete_first, delete_all, delete_found, clean_root,
  clean_up,
}

-- The first item with the property, and those before it.
pub record FirstOf {A : Type 0} (P : A → Type 0) (items : List A) (item : A) : Type 0 where
  pub earlier : List A
  pub later : List A
  pub split : items ≡ earlier ++ item ∷ later
  pub others : All (λ x. P x → ⊥) earlier
  pub holds : P item

FirstOf-cons :
    {A : Type 0} (P : A → Type 0) (x : A) (items : List A) (item : A)
    → (P x → ⊥)
    → FirstOf P items item
    → FirstOf P (x ∷ items) item
FirstOf-cons P x items item n f = record {
  earlier = x ∷ f.earlier;
  later = f.later;
  split = ap (λ l. x ∷ l) f.split;
  others = (n, f.others);
  holds = f.holds;
}

abbrev pub IsOn : String → Storage → Type 0
IsOn device storage = storage.udev_path ≡ device

find_storage-FirstOf :
    (device : String) (storages : List Storage)
    → ((find_storage device storages ≡ none) × All (λ x. IsOn device x → ⊥) storages)
      ⊎ ((storage : Storage) × (find_storage device storages ≡ some storage)
          × FirstOf (IsOn device) storages storage)
unfolding find_storage
find_storage-FirstOf device [] = inl (refl, tt)
find_storage-FirstOf device (x ∷ storages) = elim (Bool-cases (str_eq x.udev_path device)) [
  | inl e ↦ inr (
    x,
    rw e refl,
    record {
      earlier = [];
      later = storages;
      split = refl;
      others = tt;
      holds = (eq_iff x.udev_path device).0 e;
    },
  )
  | inr e ↦
      let other : IsOn device x → ⊥ = λ h. absurd (ground (arith, eq_iff x.udev_path device)) in
      elim (find_storage-FirstOf device storages) [
        | inl (f, none_on) ↦ inl (rw e f, (other, none_on))
        | inr (storage, f, first) ↦
            inr (storage, rw e f, FirstOf-cons (IsOn device) x storages storage other first)
      ]
]

module _ {W : Type 0} (targets : Targets W) where
  -- The first target of this name has been deleted, or there is none and nothing was done.
  abbrev pub TargetDeleted : String → List String → W → W → Type 0
  TargetDeleted name wwns u v =
      (All (λ wwn. wwn ≡ name → ⊥) wwns × (u ≡ v))
      ⊎ (FirstOf (λ wwn. wwn ≡ name) wwns name × (targets.delete_target name u ≡ (ok tt, v)))

  delete_first-TargetDeleted :
      (name : String) (wwns : List String) (u : W)
      → Ensures (delete_first targets name wwns) (λ x. TargetDeleted name wwns u) u
  unfolding delete_first
  delete_first-TargetDeleted name [] u = Ensures-pure (inl (tt, refl))
  delete_first-TargetDeleted name (wwn ∷ wwns) u =
      Ensures-if (str_eq wwn name)
        (λ e.
          let same : wwn ≡ name = (eq_iff wwn name).0 e in
          Ensures-call (λ a v h. inr (
            record {
              earlier = [];
              later = wwns;
              split = ap (λ n. n ∷ wwns) same;
              others = tt;
              holds = refl;
            },
            rw (← same) h,
          )))
        (λ e.
          let other : wwn ≡ name → ⊥ = λ h. absurd (ground (arith, eq_iff wwn name)) in
          Ensures-imp (delete_first-TargetDeleted name wwns u) (λ a v d. elim d [
            | inl (n, same) ↦ inl ((other, n), same)
            | inr (f, done) ↦ inr (FirstOf-cons (λ x. x ≡ name) wwn wwns name other f, done)
          ]))

  -- What is deleted for a device, where Linux-IO has this root: its first storage object, if it
  -- has one, and before it the first target of the same name.
  abbrev pub Deleted : String → Root → W → W → Type 0
  Deleted device root u t =
      (All (λ x. IsOn device x → ⊥) root.storage_objects × (u ≡ t))
      ⊎ ((storage : Storage) × FirstOf (IsOn device) root.storage_objects storage
          × (v : W) × TargetDeleted storage.name root.targets u v
          × (targets.delete_storage storage v ≡ (ok tt, t)))

  -- What `clean_up` has done: nothing without Linux-IO.
  abbrev pub Cleaned : String → W → W → Type 0
  Cleaned device s t =
      ((e : Error) × (targets.rts_root s ≡ (err e, t)) × (is_unavailable e ≡ true))
      ⊎ ((root : Root) × (u : W) × (targets.rts_root s ≡ (ok root, u)) × Deleted device root u t)

  abbrev pub RootKnown : W → Option Root → W → Type 0
  RootKnown s none t = (e : Error) × (targets.rts_root s ≡ (err e, t)) × (is_unavailable e ≡ true)
  RootKnown s (some root) t = targets.rts_root s ≡ (ok root, t)

  root_or_none-RootKnown :
      (r : Result Root) (s u : W)
      → targets.rts_root s ≡ (r, u)
      → Ensures (root_or_none targets r) (RootKnown s) u
  unfolding root_or_none
  root_or_none-RootKnown (ok root) s u h = Ensures-pure h
  root_or_none-RootKnown (err e) s u h =
      Ensures-if (is_unavailable e) (λ b. Ensures-pure (e, h, b)) (λ b. Ensures-raise)

  pub get_root-RootKnown : (s : W) → Ensures (get_root targets) (RootKnown s) s
  unfolding get_root
  get_root-RootKnown s = Ensures-call (λ root t h.
      (root_or_none-RootKnown (targets.rts_root s).0 s (targets.rts_root s).1 refl).ensured root t
        h)

  clean_root-Deleted :
      (device : String) (root : Root) (u : W)
      → Ensures (clean_root targets device (some root)) (λ x. Deleted device root u) u
  unfolding clean_root delete_found delete_all
  clean_root-Deleted device root u = elim (find_storage-FirstOf device root.storage_objects) [
    | inl (f, none_on) ↦ rw f (Ensures-pure (inl (none_on, refl)))
    | inr (storage, f, first) ↦ rw f (
        Ensures-except ErrorClass.rtslib_error _ _
          (Ensures-bind (delete_first targets storage.name root.targets) _ (λ x v h.
            Ensures-call (λ a t k. inr (
              storage,
              first,
              v,
              (delete_first-TargetDeleted storage.name root.targets u).ensured x v h,
              ground arith,
            ))))
          (λ e v h k. Ensures-raise))
  ]

  -- `clean_up` returns only if Linux-IO is not available; or if no storage object is on the device,
  -- and nothing is deleted; or if the first storage object on the device has been deleted, and
  -- before it the first target of the same name, if there is one.
  pub clean_up-Cleaned :
      (device : String) (s t : W) → clean_up targets device s ≡ (ok tt, t) → Cleaned device s t
  unfolding clean_up
  clean_up-Cleaned device s t h =
      (Ensures-bind (get_root targets) _
          (λ root u k. cleaned root u ((get_root-RootKnown s).ensured root u k))).ensured
        tt t h
    where
      cleaned :
          (root : Option Root) (u : W)
          → RootKnown s root u
          → Ensures (clean_root targets device root) (λ x. Cleaned device s) u
      cleaned none u k = Ensures-pure (inl k)
      cleaned (some root) u k =
          Ensures-imp (clean_root-Deleted device root u) (λ x t d. inr (root, u, k, d))
