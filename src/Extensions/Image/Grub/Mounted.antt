-- ===== src/Extensions/Image/Grub/Mounted.antt =====
-- What the body of `_install_grub2` has done when its end is reached.
use test_frerfhrebfd.Common.{
  String, Bool, true, false, Option, none, some, List, [], ◌∷◌, ◌++◌, ◌≡◌, refl, sym, ap, ◌∙◌,
  arith,
}
use test_frerfhrebfd.Exec.{ok, Exec, ◌>>=◌}
use test_frerfhrebfd.Exec.Ensures.{
  Ensures, Ensures-pure, Ensures-call, Ensures-bind, Ensures-gets, Ensures-imp, Ensures-modify,
}
use test_frerfhrebfd.Extensions.Image.{
  Shell, Call, mount, efi_mount_point, grub_install, grub_install_removable, grub_mkconfig,
}
use test_frerfhrebfd.Extensions.Image.Grub.{
  Locals, given, in_world, run_call, run_all, optional_partition, ensure_dir, mount_efi,
  binary_name, path_variable, install_removable, install_with, mounts, install_on_device,
  install_from, find_and_install, install_at, install_body,
}

abbrev pub is_given : Option String → Bool
is_given none = false
is_given (some partition) = true

abbrev pub target : String → Option String → String
target device none = device
target device (some prep_boot_part) = prep_boot_part

module _ {W : Type 0} (shell : Shell W) where
  -- The commands that install the boot loader, once everything is mounted.
  abbrev pub install_calls : String → String → Option String → String → List Call
  install_calls path device none bin =
      grub_install (path_variable shell) path bin device
      ∷ grub_mkconfig (path_variable shell) path bin
      ∷ []
  install_calls path device (some efi_partition) bin =
      grub_install (path_variable shell) path bin device
      ∷ grub_install_removable (path_variable shell) path bin device
      ∷ grub_mkconfig (path_variable shell) path bin
      ∷ []

  abbrev pub EfiMounted : String → Option String → W → W → Type 0
  EfiMounted path none u v = u ≡ v
  EfiMounted path (some efi_partition) u v =
      (m : W) × (ensure_dir shell (efi_mount_point path) u ≡ (ok tt, m))
      × (out : String) × (shell.execute (mount efi_partition (efi_mount_point path)) m
          ≡ (ok out, v))

  run_all-cons :
      {call : Call} (calls : List Call) {u v w : W} {out : String}
      → shell.execute call u ≡ (ok out, v)
      → run_all shell calls v ≡ (ok tt, w)
      → run_all shell (call ∷ calls) u ≡ (ok tt, w)
  unfolding run_all ◌>>=◌
  run_all-cons calls h k = rw h k

  run_all-last :
      {call : Call} {u v : W} {out : String}
      → shell.execute call u ≡ (ok out, v)
      → run_all shell (call ∷ []) u ≡ (ok tt, v)
  unfolding run_all ◌>>=◌
  run_all-last h = rw h refl

  abbrev removable_calls : String → String → String → Option String → List Call
  removable_calls path bin device none = []
  removable_calls path bin device (some efi_partition) =
      grub_install_removable (path_variable shell) path bin device ∷ []

  install_removable-calls :
      (path bin device : String) (efi_partition : Option String) (calls : List Call) (u w : W)
      → Ensures
          (install_removable shell path bin device efi_partition)
          (λ x v.
            run_all shell calls v ≡ (ok tt, w)
            → run_all shell (removable_calls path bin device efi_partition ++ calls) u ≡ (ok tt, w))
          u
  unfolding install_removable
  install_removable-calls path bin device none calls u w = Ensures-pure (λ k. k)
  install_removable-calls path bin device (some efi_partition) calls u w =
      Ensures-bind (shell.execute (grub_install_removable (path_variable shell) path bin device)) _
        (λ a v h. Ensures-pure (λ k. run_all-cons calls h k))

  install_calls_eq :
      (path device bin : String) (efi_partition : Option String)
      → install_calls path device efi_partition bin
        ≡ grub_install (path_variable shell) path bin device
          ∷ (removable_calls path bin device efi_partition
              ++ grub_mkconfig (path_variable shell) path bin ∷ [])
  install_calls_eq path device bin none = refl
  install_calls_eq path device bin (some efi_partition) = refl

  install_with-calls :
      (path device bin : String) (efi_partition : Option String) (u : W)
      → Ensures
          (install_with shell path device efi_partition bin)
          (λ x v. run_all shell (install_calls path device efi_partition bin) u ≡ (ok tt, v))
          u
  unfolding install_with
  install_with-calls path device bin efi_partition u =
      rw (install_calls_eq path device bin efi_partition) (
        Ensures-bind (shell.execute (grub_install (path_variable shell) path bin device)) _
          (λ a v h. Ensures-bind (install_removable shell path bin device efi_partition) _ (λ b w k.
            Ensures-bind (shell.execute (grub_mkconfig (path_variable shell) path bin)) _ (λ c x l.
              Ensures-pure (
                run_all-cons _ h (
                  (install_removable-calls path bin device efi_partition _ v x).ensured b w k
                    (run_all-last l)))))))

  -- A step in the world leaves the locals as they are.
  pub in_world-step :
      {A : Type 0} (m : Exec W A) (s : Locals W)
      → Ensures
          (in_world m)
          (λ a t. (m s.world ≡ (ok a, t.world)) × (t ≡ record s { world = t.world }))
          s
  in_world-step m s = Ensures-call (λ a t h. (ground arith, ground arith))

  mount_efi-EfiMounted :
      (path : String) (efi_partition : Option String) (s : Locals W)
      → s.efi_mounted ≡ false
      → Ensures
          (mount_efi shell path efi_partition)
          (λ x t.
            EfiMounted path efi_partition s.world t.world
            × (t ≡ record s { efi_mounted = is_given efi_partition; world = t.world }))
          s
  unfolding mount_efi
  mount_efi-EfiMounted path none s f = Ensures-pure (refl, ground arith)
  mount_efi-EfiMounted path (some efi_partition) s f =
      Ensures-bind (in_world (ensure_dir shell (efi_mount_point path))) _ (λ a t h.
        let (x, y) = (in_world-step (ensure_dir shell (efi_mount_point path)) s).ensured a t h in
        Ensures-bind (run_call shell (mount efi_partition (efi_mount_point path))) _ (λ b u k.
          let (z, w) =
            (in_world-step (shell.execute (mount efi_partition (efi_mount_point path))) t).ensured b
              u k in
          Ensures-modify _ ((t.world, x, b, z), ground arith)))

  -- What the body of the `try` statement has done, from its first locals.
  pub record Mounted (root_partition : String) (efi_uuid prep_uuid : Option String) (s t : Locals W)
      : Type 0 where
    pub path : String
    pub efi_partition : Option String
    pub prep_boot_part : Option String
    pub made : W
    pub efi_found : W
    pub prep_found : W
    pub mounted : W
    pub efi_mounted : W
    pub make : shell.mkdtemp s.world ≡ (ok path, made)
    pub find_efi :
        optional_partition shell s.device (given efi_uuid) made ≡ (ok efi_partition, efi_found)
    pub find_prep :
        optional_partition shell s.device (given prep_uuid) efi_found
        ≡ (ok prep_boot_part, prep_found)
    pub mount_all : run_all shell (mounts shell path root_partition) prep_found ≡ (ok tt, mounted)
    pub efi_mount : EfiMounted path efi_partition mounted efi_mounted
    pub install :
        run_all shell
          (install_calls path
            (target s.device prep_boot_part)
            efi_partition
            (binary_name shell path efi_mounted))
          efi_mounted
        ≡ (ok tt, t.world)
    pub path_known : t.path ≡ some path
    pub efi_known : t.efi_mounted ≡ is_given efi_partition

  -- What `install_on_device` has done.
  abbrev OnDevice : String → String → Option String → String → Locals W → Locals W → Type 0
  OnDevice path root_partition efi_partition device s t =
      (mounted : W) × (run_all shell (mounts shell path root_partition) s.world ≡ (ok tt, mounted))
      × (efi_mounted : W) × EfiMounted path efi_partition mounted efi_mounted
      × (run_all shell
            (install_calls path device efi_partition (binary_name shell path efi_mounted))
            efi_mounted
          ≡ (ok tt, t.world))
      × (t ≡ record s { efi_mounted = is_given efi_partition; world = t.world })

  install_on_device-OnDevice :
      (path root_partition device : String) (efi_partition : Option String) (s : Locals W)
      → s.efi_mounted ≡ false
      → Ensures
          (install_on_device shell path root_partition efi_partition device)
          (λ x. OnDevice path root_partition efi_partition device s)
          s
  unfolding install_on_device
  install_on_device-OnDevice path root_partition device efi_partition s f =
      Ensures-bind (in_world (run_all shell (mounts shell path root_partition))) _ (λ a t h.
        let (x, y) =
          (in_world-step (run_all shell (mounts shell path root_partition)) s).ensured a t h in
        Ensures-bind (mount_efi shell path efi_partition) _ (λ b u k.
          let (z, w) = (mount_efi-EfiMounted path efi_partition t (ground arith)).ensured b u k in
          Ensures-gets (λ s. binary_name shell path s.world)
            (λ bin. in_world (install_with shell path device efi_partition bin))
            (Ensures-imp
              (in_world-step
                (install_with shell path device efi_partition (binary_name shell path u.world)) u)
              (λ c v (l, m). (
                t.world,
                x,
                u.world,
                z,
                (install_with-calls path device _ efi_partition u.world).ensured c v.world l,
                ground arith,
              )))))

  install_from-OnDevice :
      (root_partition path : String) (efi prep : Option String) (s : Locals W)
      → s.efi_mounted ≡ false
      → Ensures
          (install_from shell path root_partition efi prep)
          (λ x t.
            OnDevice path root_partition efi
              (target s.device prep)
              (record s { device = target s.device prep })
              t)
          s
  unfolding install_from
  install_from-OnDevice root_partition path efi none s f =
      Ensures-call
        (λ x t h. (install_on_device-OnDevice path root_partition s.device efi s f).ensured x t h)
  install_from-OnDevice root_partition path efi (some prep) s f = Ensures-call (λ x t h.
      (install_on_device-OnDevice path root_partition prep efi (record s { device = prep })
          f).ensured
        x t h)

  find_and_install-Mounted :
      (root_partition path : String) (efi_uuid prep_uuid : Option String) (s : Locals W) (w : W)
      → s.efi_mounted ≡ false
      → shell.mkdtemp w ≡ (ok path, s.world)
      → Ensures
          (find_and_install shell path root_partition efi_uuid prep_uuid s.device)
          (λ x. Mounted root_partition efi_uuid prep_uuid (record s { world = w }))
          (record s { path = some path })
  unfolding find_and_install
  find_and_install-Mounted root_partition path efi_uuid prep_uuid s w f make =
      Ensures-bind (in_world (optional_partition shell s.device (given efi_uuid))) _ (λ efi u k.
        let (find_efi, y) =
          (in_world-step (optional_partition shell s.device (given efi_uuid))
              (record s { path = some path })).ensured
            efi u k in
        Ensures-bind (in_world (optional_partition shell s.device (given prep_uuid))) _ (λ prep v l.
          let (find_prep, z) =
            (in_world-step (optional_partition shell s.device (given prep_uuid)) u).ensured prep v
              l in
          Ensures-imp (install_from-OnDevice root_partition path efi prep v (ground arith))
            (λ x t (mounted, mount_all, efi_mounted, mount_efi, install, same).
              let device : v.device ≡ s.device = ground arith in
              record {
                path = path;
                efi_partition = efi;
                prep_boot_part = prep;
                made = s.world;
                efi_found = u.world;
                prep_found = v.world;
                mounted = mounted;
                efi_mounted = efi_mounted;
                make = make;
                find_efi = find_efi;
                find_prep = find_prep;
                mount_all = mount_all;
                efi_mount = mount_efi;
                install = rw (← device) install;
                path_known = ground arith;
                efi_known = ground arith;
              })))

  install_at-Mounted :
      (root_partition path : String) (efi_uuid prep_uuid : Option String) (s t : Locals W)
      → s.efi_mounted ≡ false
      → shell.mkdtemp s.world ≡ (ok path, t.world)
      → t ≡ record s { world = t.world }
      → Ensures
          (install_at shell root_partition efi_uuid prep_uuid path)
          (λ x. Mounted root_partition efi_uuid prep_uuid s)
          t
  unfolding install_at
  install_at-Mounted root_partition path efi_uuid prep_uuid s t f make same = Ensures-call (λ x v h.
      (find_and_install-Mounted root_partition path efi_uuid prep_uuid
          (record s { world = t.world }) s.world f make).ensured
        x v (ap (install_at shell root_partition efi_uuid prep_uuid path) (sym same) ∙ h))

  pub install_body-Mounted :
      (root_partition : String) (efi_uuid prep_uuid : Option String) (s : Locals W)
      → s.efi_mounted ≡ false
      → Ensures
          (install_body shell root_partition efi_uuid prep_uuid)
          (λ x. Mounted root_partition efi_uuid prep_uuid s)
          s
  unfolding install_body
  install_body-Mounted root_partition efi_uuid prep_uuid s f =
      Ensures-bind (in_world shell.mkdtemp) _ (λ path t h.
        let (make, same) = (in_world-step shell.mkdtemp s).ensured path t h in
        install_at-Mounted root_partition path efi_uuid prep_uuid s t f make same)
