-- ===== src/Extensions/Image/Cleanup/Cleaned.antt =====
-- What the `finally` clause of `_install_grub2` leaves behind.
use Prim.Native.String.{◌++◌ as ◌+++◌}
use test_frerfhrebfd.Common.{
  String, Bool, true, false, some, List, [], ◌∷◌, ◌++◌, ◌||◌, if◌then◌else◌, ◌≡◌, refl, ◌⊎◌, inl,
  inr, arith,
}
use test_frerfhrebfd.Errors.Hierarchy.{ErrorClass}
use test_frerfhrebfd.Errors.Build.{Error}
use test_frerfhrebfd.Exec.{ok, err, ◌>>=◌, >>=-err}
use test_frerfhrebfd.Exec.Ensures.{
  Ensures, Ensures-pure, Ensures-raise, Ensures-call, Ensures-except, Ensures-bind, Ensures-imp,
}
use test_frerfhrebfd.Extensions.Image.{Shell, bind_mounts, umount, efi_mount_point}
use test_frerfhrebfd.Extensions.Image.Cleanup.{
  try_umount, umount_each, remove_unless, umount_and_remove_unless, umount_path, umount_efi,
  clean_up,
}

module _ {W : Type 0} (shell : Shell W) where
  abbrev pub Umounted : String → W → W → Type 0
  Umounted path u v = (out : String) × (shell.execute (umount path) u ≡ (ok out, v))

  -- Some `umount` has failed, so that the directory has been left.
  pub record IsLeft : Type 0 where
    pub path : String
    pub before : W
    pub error : Error
    pub after : W
    pub failed : shell.execute (umount path) before ≡ (err error, after)

  abbrev pub AllUmounted : String → List String → W → W → Type 0
  AllUmounted path [] u v = u ≡ v
  AllUmounted path (fs ∷ mounted) u v =
      (m : W) × Umounted (path +++ fs) u m × AllUmounted path mounted m v

  -- Everything is unmounted, and then the directory is removed; or some `umount` failed.
  abbrev pub CleanedUp : String → W → W → Type 0
  CleanedUp path u t =
      ((v : W) × AllUmounted path (bind_mounts ++ ("/sys" ∷ [])) u v
        × (w : W) × Umounted path v w
        × (shell.rmtree path w ≡ (ok tt, t)))
      ⊎ IsLeft

  abbrev Tried : String → W → Bool → W → Type 0
  Tried path u failed v = ((failed ≡ false) × Umounted path u v) ⊎ ((failed ≡ true) × IsLeft)

  try_umount-Tried : (path : String) (u : W) → Ensures (try_umount shell path) (Tried path u) u
  unfolding try_umount
  try_umount-Tried path u =
      Ensures-except ErrorClass.process_execution_error _ _
        (Ensures-bind (shell.execute (umount path)) _
          (λ out v h. Ensures-pure (inl (refl, (out, h)))))
        (λ e v h k. elim (>>=-err (shell.execute (umount path)) _ u e v h) [
          | inl x ↦
              Ensures-pure
                (inr (refl, record { path = path; before = u; error = e; after = v; failed = x }))
          | inr (a, w, x, y) ↦ absurd (ground arith)
        ])

  abbrev EachTried : String → List String → W → Bool → W → Type 0
  EachTried path mounted u failed v =
      ((failed ≡ false) × AllUmounted path mounted u v) ⊎ ((failed ≡ true) × IsLeft)

  either :
      (path fs : String) (mounted : List String) (u v w : W) (a b : Bool)
      → Tried (path +++ fs) u a v
      → EachTried path mounted v b w
      → EachTried path (fs ∷ mounted) u (a || b) w
  either path fs mounted u v w a b (inl (x, y)) (inl (z, k)) = inl (ground arith, (v, y, k))
  either path fs mounted u v w a b (inl (x, y)) (inr (z, k)) = inr (ground arith, k)
  either path fs mounted u v w a b (inr (x, y)) h = inr (ground arith, y)

  umount_each-EachTried :
      (path : String) (mounted : List String) (u : W)
      → Ensures (umount_each shell path mounted) (EachTried path mounted u) u
  unfolding umount_each
  umount_each-EachTried path [] u = Ensures-pure (inl (refl, refl))
  umount_each-EachTried path (fs ∷ mounted) u =
      Ensures-bind (try_umount shell (path +++ fs)) _ (λ a v h.
        let x = (try_umount-Tried (path +++ fs) u).ensured a v h in
        Ensures-bind (umount_each shell path mounted) _ (λ b w k.
          let y = (umount_each-EachTried path mounted v).ensured b w k in
          Ensures-pure (either path fs mounted u v w a b x y)))

  removed :
      (path : String) (u v w t : W) (failed : Bool)
      → AllUmounted path (bind_mounts ++ ("/sys" ∷ [])) u v
      → Tried path v failed w
      → remove_unless shell path failed w ≡ (ok tt, t)
      → CleanedUp path u t
  unfolding remove_unless
  removed path u v w t failed a (inl (x, y)) h = inl (v, a, w, y, ground arith)
  removed path u v w t failed a (inr (x, y)) h = inr y

  umount_and_remove_unless-CleanedUp :
      (path : String) (u v : W) (failed : Bool)
      → EachTried path (bind_mounts ++ ("/sys" ∷ [])) u failed v
      → Ensures (umount_and_remove_unless shell path failed) (λ x. CleanedUp path u) v
  unfolding umount_and_remove_unless
  umount_and_remove_unless-CleanedUp path u v failed (inr (x, y)) = Ensures-call (λ a t h. inr y)
  umount_and_remove_unless-CleanedUp path u v failed (inl (x, y)) = rw x (
      Ensures-bind (try_umount shell path) _ (λ b w h.
        Ensures-call
          (λ a t k. removed path u v w t b y ((try_umount-Tried path v).ensured b w h) k)))

  umount_path-CleanedUp :
      (path : String) (u : W) → Ensures (umount_path shell path) (λ x. CleanedUp path u) u
  unfolding umount_path
  umount_path-CleanedUp path u =
      Ensures-bind (umount_each shell path (bind_mounts ++ ("/sys" ∷ []))) _ (λ b v h.
        umount_and_remove_unless-CleanedUp path u v b
          ((umount_each-EachTried path (bind_mounts ++ ("/sys" ∷ [])) u).ensured b v h))

  -- The EFI partition, if it is mounted, is unmounted first.
  abbrev pub Flushed : String → Bool → W → W → Type 0
  Flushed path true u v = Umounted (efi_mount_point path) u v
  Flushed path false u v = u ≡ v

  umount_efi-Flushed :
      (path : String) (efi_mounted : Bool) (u : W)
      → Ensures (umount_efi shell path efi_mounted) (λ x. Flushed path efi_mounted u) u
  unfolding umount_efi
  umount_efi-Flushed path efi_mounted u =
      Ensures-except ErrorClass.process_execution_error _ _ (flushed efi_mounted)
        (λ e v h k. Ensures-raise)
    where
      flushed :
          (b : Bool)
          → Ensures
              (if b
                then (shell.execute (umount (efi_mount_point path)) >>= λ out w. (ok tt, w))
                else (λ w. (ok tt, w)))
              (λ x. Flushed path b u)
              u
      flushed true =
          Ensures-bind (shell.execute (umount (efi_mount_point path))) _
            (λ out v h. Ensures-pure (out, h))
      flushed false = Ensures-pure refl

  pub clean_up-CleanedUp :
      (path : String) (efi_mounted : Bool) (u : W)
      → Ensures
          (clean_up shell (some path) efi_mounted)
          (λ x t. (v : W) × Flushed path efi_mounted u v × CleanedUp path v t)
          u
  unfolding clean_up
  clean_up-CleanedUp path efi_mounted u =
      Ensures-bind (umount_efi shell path efi_mounted) _ (λ x v h.
        Ensures-imp (umount_path-CleanedUp path v)
          (λ y t c. (v, (umount_efi-Flushed path efi_mounted u).ensured x v h, c)))
