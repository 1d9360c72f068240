-- ===== src/Extensions/Image/Grub.antt =====
-- extensions/image.py: `_install_grub2`. The locals that the `finally` clause reads are a state:
-- an exception may leave the body before they are set.
pub mod Mounted
pub mod Installed
use test_frerfhrebfd.Common.{
  String, Bool, true, false, Option, none, some, List, [], ◌∷◌, ◌++◌, map, ◌||◌, not, str_eq,
  format, join_path, if◌then◌else◌,
}
use test_frerfhrebfd.Errors.Hierarchy.{ErrorClass}
use test_frerfhrebfd.Errors.Build.{Error, rest_error_init, foreign_error, str}
use test_frerfhrebfd.Exec.{
  Result, ok, err, Exec, pure, raise, gets, modify, except, try_finally, ◌>>=◌, ◌>>◌,
}
use test_frerfhrebfd.Extensions.Image.{
  Shell, Call, bind_mounts, mount, bind_mount, mount_sysfs, umount, efi_mount_point, grub_install,
  grub_install_removable, grub_mkconfig,
}
use test_frerfhrebfd.Extensions.Image.Cleanup.{clean_up}
use test_frerfhrebfd.Extensions.Image.Partition.{get_partition}

pub record Locals (W : Type 0) : Type 0 where
  pub path : Option String
  -- the PReP partition takes the place of the disk
  pub device : String
  pub efi_mounted : Bool
  pub world : W

-- A UUID that is given: `None` and the empty text are none.
abbrev pub given : Option String → Option String
given none = none
given (some uuid) = if str_eq uuid "" then none else some uuid

unfoldable pub grub_failed : String → Error → Error
grub_failed device e = rest_error_init ErrorClass.command_execution_error (
    format
      ("Installing GRUB2 boot loader to device " ∷ device ∷ " failed with " ∷ str e ∷ "." ∷ []))

module _ {W : Type 0} where
  abbrev pub in_world : {A : Type 0} → Exec W A → Exec (Locals W) A
  in_world m s = let (r, w) = m s.world in (r, record s { world = w })

module _ {W : Type 0} (shell : Shell W) where
  abbrev pub run_call : Call → Exec (Locals W) String
  run_call call = in_world (shell.execute call)

  unfoldable pub run_all : List Call → Exec W (Unit {0})
  unfolding ◌>>=◌
  run_all [] = pure tt
  run_all (call ∷ calls) = do shell.execute call; run_all calls

  -- The partition with a UUID that is given.
  unfoldable pub optional_partition : String → Option String → Exec W (Option String)
  unfolding ◌>>=◌
  optional_partition device none = pure none
  optional_partition device (some uuid) = do
    partition ← get_partition shell device uuid
    pure (some partition)

  unfoldable pub ensure_dir : String → Exec W (Unit {0})
  ensure_dir path w = if shell.exists path w then (ok tt, w) else shell.makedirs path w

  unfoldable pub mount_efi : String → Option String → Exec (Locals W) (Unit {0})
  unfolding ensure_dir ◌>>=◌
  mount_efi path none = pure tt
  mount_efi path (some efi_partition) = do
    in_world (ensure_dir (efi_mount_point path))
    run_call (mount efi_partition (efi_mount_point path))
    modify (λ s. record s { efi_mounted = true })

  abbrev pub binary_name : String → W → String
  binary_name path w =
      if shell.exists (join_path path "usr/sbin/grub2-install") w then "grub2" else "grub"

  abbrev pub path_variable : String
  path_variable = format (shell.environ_path ∷ ":/bin:/usr/sbin" ∷ [])

  unfoldable pub install_removable : String → String → String → Option String → Exec W (Unit {0})
  unfolding ◌>>=◌
  install_removable path bin device none = pure tt
  install_removable path bin device (some efi_partition) = do
    shell.execute (grub_install_removable path_variable path bin device)
    pure tt

  unfoldable pub install_with : String → String → Option String → String → Exec W (Unit {0})
  unfolding install_removable ◌>>=◌
  install_with path device efi_partition bin = do
    shell.execute (grub_install path_variable path bin device)
    install_removable path bin device efi_partition
    shell.execute (grub_mkconfig path_variable path bin)
    pure tt

  abbrev pub mounts : String → String → List Call
  mounts path root_partition =
      mount root_partition path ∷ (map (bind_mount path) bind_mounts ++ (mount_sysfs path ∷ []))

  abbrev set_device : Option String → Locals W → Locals W
  set_device none s = s
  set_device (some prep_boot_part) s = record s { device = prep_boot_part }

  unfoldable pub install_on_device :
      String → String → Option String → String → Exec (Locals W) (Unit {0})
  unfolding mount_efi install_with run_all ◌>>=◌
  install_on_device path root_partition efi_partition device = do
    in_world (run_all (mounts path root_partition))
    mount_efi path efi_partition
    bin ← gets (λ s. binary_name path s.world)
    in_world (install_with path device efi_partition bin)

  unfoldable pub install_from :
      String → String → Option String → Option String → Exec (Locals W) (Unit {0})
  unfolding install_on_device
  install_from path root_partition efi_partition prep_boot_part s =
      let s' = set_device prep_boot_part s in
      install_on_device path root_partition efi_partition s'.device s'

  unfoldable pub find_and_install :
      String → String → Option String → Option String → String → Exec (Locals W) (Unit {0})
  unfolding optional_partition install_from ◌>>=◌
  find_and_install path root_partition efi_system_part_uuid prep_boot_part_uuid disk = do
    efi_partition ← in_world (optional_partition disk (given efi_system_part_uuid))
    prep_boot_part ← in_world (optional_partition disk (given prep_boot_part_uuid))
    install_from path root_partition efi_partition prep_boot_part

  unfoldable pub install_at :
      String → Option String → Option String → String → Exec (Locals W) (Unit {0})
  unfolding find_and_install
  install_at root_partition efi_system_part_uuid prep_boot_part_uuid path s =
      find_and_install path root_partition efi_system_part_uuid prep_boot_part_uuid s.device
        (record s { path = some path })

  -- The body of the `try` statement.
  unfoldable pub install_body : String → Option String → Option String → Exec (Locals W) (Unit {0})
  unfolding install_at ◌>>=◌
  install_body root_partition efi_system_part_uuid prep_boot_part_uuid = do
    path ← in_world shell.mkdtemp
    install_at root_partition efi_system_part_uuid prep_boot_part_uuid path

  unfoldable pub try_body : String → Option String → Option String → Exec (Locals W) (Unit {0})
  unfolding install_body grub_failed except
  try_body root_partition efi_system_part_uuid prep_boot_part_uuid =
      except ErrorClass.process_execution_error
        (install_body root_partition efi_system_part_uuid prep_boot_part_uuid)
        (λ e s. (err (grub_failed s.device e), s))

  unfoldable pub clean_up_locals : Exec (Locals W) (Unit {0})
  unfolding clean_up
  clean_up_locals s = in_world (clean_up shell s.path s.efi_mounted) s

  abbrev pub first_locals : String → W → Locals W
  first_locals device w = record { path = none; device = device; efi_mounted = false; world = w }

  abbrev pub to_world : Result (Unit {0}) × Locals W → Result (Unit {0}) × W
  to_world (r, s) = (r, s.world)

  unfoldable pub install_on : String → Option String → Option String → String → Exec W (Unit {0})
  unfolding try_body clean_up_locals try_finally
  install_on device efi_system_part_uuid prep_boot_part_uuid root_partition w = to_world (
      try_finally (try_body root_partition efi_system_part_uuid prep_boot_part_uuid) clean_up_locals
        (first_locals device w))

  -- `_install_grub2`
  unfoldable pub install_grub2 : String → String → Option String → Option String → Exec W (Unit {0})
  unfolding install_on ◌>>=◌
  install_grub2 device root_uuid efi_system_part_uuid prep_boot_part_uuid = do
    root_partition ← get_partition shell device root_uuid
    install_on device efi_system_part_uuid prep_boot_part_uuid root_partition
