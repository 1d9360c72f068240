-- ===== src/Hardware/Erase/Metadata/Wiped.antt =====
-- When the erasure of the metadata of all devices succeeds.
use test_frerfhrebfd.Common.{
  ℕ, String, ◌≡◌, refl, Bool, true, false, Option, some, List, [], ◌∷◌, ◌⊎◌, inl, inr, arith, All,
  insert,
}
use test_frerfhrebfd.Exec.{ok, Exec}
use test_frerfhrebfd.Exec.Ensures.{
  Ensures, Ensures-pure, Ensures-raise, Ensures-except, Ensures-bind, Ensures-imp,
}
use test_frerfhrebfd.Errors.Build.{str}
use test_frerfhrebfd.Hardware.Types.{Node, BlockDevice}
use test_frerfhrebfd.Hardware.Dispatch.{subscript_uuid}
use test_frerfhrebfd.Hardware.Erase.{is_virtual_media_device}
use test_frerfhrebfd.Hardware.Erase.Confirmed.{is_virtual_media_device-Linked}
use test_frerfhrebfd.Hardware.Erase.Metadata.{
  EraseErrors, lift, erase_metadata, skip_or_erase, erase_all, raise_errors, erase_devices_metadata,
}

insert_ne : (k v : String) (d : EraseErrors) → insert k v d ≡ [] → ⊥
insert_ne k v [] h = ground arith
insert_ne k v ((j, w) ∷ d) h = ground arith

module _ {W : Type 0} (execute : List ℕ → List String → Exec W (String × String))
    (readlink : Exec W (Option String)) (destroy : String → String → Exec W (Unit {0}))
    (node : Node) where
  -- The device is virtual media, or its metadata were destroyed without error.
  abbrev pub Wiped : BlockDevice → Type 0
  Wiped dev =
      ((u v : W) × (readlink u ≡ (ok (some dev.name), v)))
      ⊎ ((uuid : String) × (u v : W) × (destroy dev.name uuid u ≡ (ok tt, v)))

  -- No errors after a step mean none before it, and what is said of the step.
  abbrev Clean : Type 0 → EraseErrors → EraseErrors → Type 0
  Clean P before after = after ≡ [] → (before ≡ []) × P

  erase_metadata-Clean :
      (dev : BlockDevice) (errors : EraseErrors) (s : W)
      → Ensures
          (erase_metadata execute readlink destroy node dev.name errors)
          (λ after t. Clean (Wiped dev) errors after)
          s
  unfolding erase_metadata
  erase_metadata-Clean dev errors s =
      Ensures-except _ _ _
        (Ensures-bind (lift execute readlink destroy node (subscript_uuid node)) _ (λ uuid u h.
          Ensures-bind (destroy dev.name uuid) _
            (λ x v k. Ensures-pure (λ z. (z, inr (uuid, u, v, k))))))
        (λ e u h i. Ensures-pure (λ z. absurd (insert_ne dev.name (str e) errors z)))

  skip_or_erase-Clean :
      (b : Bool) (dev : BlockDevice) (errors : EraseErrors) (s : W)
      → (b ≡ true → Wiped dev)
      → Ensures
          (skip_or_erase execute readlink destroy node b dev.name errors)
          (λ after t. Clean (Wiped dev) errors after)
          s
  unfolding skip_or_erase
  skip_or_erase-Clean true dev errors s w = Ensures-pure (λ z. (z, w refl))
  skip_or_erase-Clean false dev errors s w = erase_metadata-Clean dev errors s

  erase_all-Clean :
      (devices : List BlockDevice) (errors : EraseErrors) (s : W)
      → Ensures
          (erase_all execute readlink destroy node devices errors)
          (λ after t. Clean (All Wiped devices) errors after)
          s
  unfolding erase_all
  erase_all-Clean [] errors s = Ensures-pure (λ z. (z, tt))
  erase_all-Clean (dev ∷ devices) errors s =
      Ensures-bind (is_virtual_media_device execute readlink dev.name) _ (λ b u h.
        Ensures-bind (skip_or_erase execute readlink destroy node b dev.name errors) _ (λ next v k.
          let step =
            (skip_or_erase-Clean b dev errors u (λ c. inl (
              s,
              u,
              (is_virtual_media_device-Linked execute readlink dev.name s).ensured b u h c,
            ))).ensured
              next v k in
          Ensures-imp (erase_all-Clean devices next v)
            (λ after t f z. let (n, rest) = f z in let (o, w) = step n in (o, (w, rest)))))

  raise_errors-None :
      (errors : EraseErrors) (s : W)
      → Ensures (raise_errors execute readlink destroy node errors) (λ x t. errors ≡ []) s
  unfolding raise_errors
  raise_errors-None [] s = Ensures-pure refl
  raise_errors-None (e ∷ errors) s = Ensures-raise

  erase_devices_metadata-Ensures :
      (list_block_devices : Exec W (List BlockDevice)) (s : W)
      → Ensures
          (erase_devices_metadata execute readlink destroy node list_block_devices)
          (λ x t.
            (devices : List BlockDevice) × (u : W) × (list_block_devices s ≡ (ok devices, u))
            × All Wiped devices)
          s
  unfolding erase_devices_metadata
  erase_devices_metadata-Ensures list_block_devices s =
      Ensures-bind list_block_devices _ (λ devices u h.
        Ensures-bind (erase_all execute readlink destroy node devices []) _ (λ errors v k.
          Ensures-imp (raise_errors-None errors v)
            (λ x t n. (devices, u, h, ((erase_all-Clean devices [] u).ensured errors v k n).1))))

  -- The erasure of the metadata succeeds only if every device that was listed is virtual media or
  -- has had its metadata destroyed without error.
  pub erase_devices_metadata-Wiped :
      (list_block_devices : Exec W (List BlockDevice)) (s t : W)
      → erase_devices_metadata execute readlink destroy node list_block_devices s ≡ (ok tt, t)
      → (devices : List BlockDevice) × (u : W) × (list_block_devices s ≡ (ok devices, u))
        × All Wiped devices
  erase_devices_metadata-Wiped list_block_devices s t h =
      (erase_devices_metadata-Ensures list_block_devices s).ensured tt t h
