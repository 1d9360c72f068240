-- ===== src/Extensions/Image/Grub/Installed.antt =====
-- What `_install_grub2` has done when it returns.
use test_frerfhrebfd.Common.{String, Bool, Option, some, ◌≡◌, refl, sym, ap, ◌∙◌, arith}
use test_frerfhrebfd.Errors.Hierarchy.{ErrorClass}
use test_frerfhrebfd.Exec.{ok, Exec, >>=-ok, try_finally}
use test_frerfhrebfd.Exec.Ensures.{Ensures, Ensures-call, Ensures-except, Ensures-finally}
use test_frerfhrebfd.Extensions.Image.{Shell}
use test_frerfhrebfd.Extensions.Image.Cleanup.{clean_up}
use test_frerfhrebfd.Extensions.Image.Cleanup.Cleaned.{Flushed, CleanedUp, clean_up-CleanedUp}
use test_frerfhrebfd.Extensions.Image.Partition.{get_partition}
use test_frerfhrebfd.Extensions.Image.Grub.{
  Locals, install_body, try_body, clean_up_locals, to_world, first_locals, install_on,
  install_grub2,
}
use test_frerfhrebfd.Extensions.Image.Grub.Mounted.{
  is_given, Mounted, install_body-Mounted, in_world-step,
}

module _ {W : Type 0} (shell : Shell W) where
  -- The body, and the `finally` clause after it.
  pub record Installed (device root_partition : String) (efi_uuid prep_uuid : Option String)
      (s t : W) : Type 0 where
    pub locals : Locals W
    pub body : Mounted shell root_partition efi_uuid prep_uuid (first_locals shell device s) locals
    pub flushed : W
    pub flush : Flushed shell body.path (is_given body.efi_partition) locals.world flushed
    pub clean : CleanedUp shell body.path flushed t

  try_body-Mounted :
      (root_partition device : String) (efi_uuid prep_uuid : Option String) (w : W)
      → Ensures
          (try_body shell root_partition efi_uuid prep_uuid)
          (λ x. Mounted shell root_partition efi_uuid prep_uuid (first_locals shell device w))
          (first_locals shell device w)
  unfolding try_body
  try_body-Mounted root_partition device efi_uuid prep_uuid w =
      Ensures-except ErrorClass.process_execution_error
        (install_body shell root_partition efi_uuid prep_uuid) _
        (install_body-Mounted shell root_partition efi_uuid prep_uuid (first_locals shell device w)
          refl)
        (λ e u h k. Ensures-call (λ a t l. absurd (ground arith)))

  clean_up_locals-CleanedUp :
      (path : String) (efi_mounted : Bool) (s t : Locals W)
      → s.path ≡ some path
      → s.efi_mounted ≡ efi_mounted
      → clean_up_locals shell s ≡ (ok tt, t)
      → (v : W) × Flushed shell path efi_mounted s.world v × CleanedUp shell path v t.world
  unfolding clean_up_locals
  clean_up_locals-CleanedUp path efi_mounted s t p q h =
      (clean_up-CleanedUp shell path efi_mounted s.world).ensured tt t.world (
        ap (λ o. clean_up shell o efi_mounted s.world) (sym p)
        ∙ ap (λ b. clean_up shell s.path b s.world) (sym q)
        ∙ ((in_world-step shell (clean_up shell s.path s.efi_mounted) s).ensured tt t h).0)

  to_world-ensured :
      (P : W → Type 0) (m : Exec (Locals W) (Unit {0})) (s : Locals W)
      → Ensures m (λ x u. P u.world) s
      → (t : W) → to_world shell (m s) ≡ (ok tt, t)
      → P t
  to_world-ensured P m s f t h =
      let world : (m s).1.world ≡ t = ground arith in
      let returned : m s ≡ (ok tt, (m s).1) = ground arith in
      rw (← world) (f.ensured tt (m s).1 returned)

  finally-Installed :
      (device root_partition : String) (efi_uuid prep_uuid : Option String) (s : W)
      → Ensures
          (try_finally (try_body shell root_partition efi_uuid prep_uuid) (clean_up_locals shell))
          (λ x u. Installed device root_partition efi_uuid prep_uuid s u.world)
          (first_locals shell device s)
  finally-Installed device root_partition efi_uuid prep_uuid s =
      Ensures-finally (try_body shell root_partition efi_uuid prep_uuid) (clean_up_locals shell)
        (λ a v k.
          let m = (try_body-Mounted root_partition device efi_uuid prep_uuid s).ensured a v k in
          Ensures-call (λ b x l.
            let (w, flush, clean) =
              clean_up_locals-CleanedUp m.path (is_given m.efi_partition) v x m.path_known
                m.efi_known l in
            record { locals = v; body = m; flushed = w; flush = flush; clean = clean }))

  install_on-Installed :
      (device root_partition : String) (efi_uuid prep_uuid : Option String) (s t : W)
      → install_on shell device efi_uuid prep_uuid root_partition s ≡ (ok tt, t)
      → Installed device root_partition efi_uuid prep_uuid s t
  unfolding install_on
  install_on-Installed device root_partition efi_uuid prep_uuid s t h =
      to_world-ensured (Installed device root_partition efi_uuid prep_uuid s)
        (try_finally (try_body shell root_partition efi_uuid prep_uuid) (clean_up_locals shell))
        (first_locals shell device s) (finally-Installed device root_partition efi_uuid prep_uuid s)
        t h

  pub install_grub2-Installed :
      (device root_uuid : String) (efi_uuid prep_uuid : Option String) (s t : W)
      → install_grub2 shell device root_uuid efi_uuid prep_uuid s ≡ (ok tt, t)
      → (root_partition : String) × (found : W) × (get_partition shell device root_uuid s
          ≡ (ok root_partition, found))
        × Installed device root_partition efi_uuid prep_uuid found t
  unfolding install_grub2
  install_grub2-Installed device root_uuid efi_uuid prep_uuid s t h =
      let (root_partition, found, e, k) =
        >>=-ok (get_partition shell device root_uuid) (install_on shell device efi_uuid prep_uuid) s
          tt t h in
      (
        root_partition,
        found,
        e,
        install_on-Installed device root_partition efi_uuid prep_uuid found t k,
      )
