-- ===== src/Extensions/Image/Bootloader.antt =====
-- extensions/image.py: `ImageExtension.install_bootloader`.
use test_frerfhrebfd.Common.{String, Option, ◌≡◌}
use test_frerfhrebfd.Exec.{ok, Exec, ◌>>=◌, ◌>>◌, >>=-ok}
use test_frerfhrebfd.Extensions.Iscsi.{Targets}
use test_frerfhrebfd.Extensions.Iscsi.CleanUp.{clean_up}
use test_frerfhrebfd.Extensions.Iscsi.CleanUp.Deleted.{Cleaned, clean_up-Cleaned}
use test_frerfhrebfd.Extensions.Image.{Shell}
use test_frerfhrebfd.Extensions.Image.Partition.{get_partition}
use test_frerfhrebfd.Extensions.Image.Grub.{install_grub2}
use test_frerfhrebfd.Extensions.Image.Grub.Installed.{Installed, install_grub2-Installed}

module _ {W : Type 0} (shell : Shell W) (targets : Targets W) where
  -- `install_bootloader`
  unfoldable pub install_bootloader : String → Option String → Option String → Exec W (Unit {0})
  unfolding ◌>>=◌
  install_bootloader root_uuid efi_system_part_uuid prep_boot_part_uuid = do
    device ← targets.get_os_install_device
    clean_up targets device
    install_grub2 shell device root_uuid efi_system_part_uuid prep_boot_part_uuid

  -- What has been done for the install device before and after the search of the root partition.
  pub record Bootable (root_uuid : String) (efi_uuid prep_uuid : Option String) (s t : W)
      : Type 0 where
    pub device : String
    pub root_partition : String
    pub known : W
    pub cleaned : W
    pub found : W
    pub know : targets.get_os_install_device s ≡ (ok device, known)
    pub clean : Cleaned targets device known cleaned
    pub find : get_partition shell device root_uuid cleaned ≡ (ok root_partition, found)
    pub install : Installed shell device root_partition efi_uuid prep_uuid found t

  -- `install_bootloader` returns only if the install device is known, its iSCSI target has been
  -- deleted or there is none, and the root partition has been found, and then all of this has
  -- succeeded in this order: a directory is made; the partitions of the EFI system and of PReP that
  -- are asked for are found; the root partition, `/dev`, `/proc`, `/run` and sysfs are mounted in
  -- the directory, and the EFI partition if there is one; the boot loader is installed on the PReP
  -- partition if there is one and on the disk otherwise, for an EFI partition with `--removable`
  -- too, and its configuration is made; and the EFI partition is unmounted. After that everything
  -- else has been unmounted and the directory has been removed, or some `umount` has failed.
  pub install_bootloader-Bootable :
      (root_uuid : String) (efi_uuid prep_uuid : Option String) (s t : W)
      → install_bootloader root_uuid efi_uuid prep_uuid s ≡ (ok tt, t)
      → Bootable root_uuid efi_uuid prep_uuid s t
  unfolding install_bootloader
  install_bootloader-Bootable root_uuid efi_uuid prep_uuid s t h =
      let (device, u, know, a) = >>=-ok targets.get_os_install_device _ s tt t h in
      let (x, v, clean, b) = >>=-ok (clean_up targets device) _ u tt t a in
      let (root_partition, w, find, installed) =
        install_grub2-Installed shell device root_uuid efi_uuid prep_uuid v t b in
      record {
        device = device;
        root_partition = root_partition;
        known = u;
        cleaned = v;
        found = w;
        know = know;
        clean = clean_up-Cleaned targets device u v clean;
        find = find;
        install = installed;
      }
