-- ===== src/Extensions/Image.antt =====
-- extensions/image.py: installation of the boot loader. `Shell` holds the calls that leave the agent.
pub mod Partition
pub mod Cleanup
pub mod Grub
pub mod Bootloader
use Prim.Native.String.{◌++◌ as ◌+++◌}
use test_frerfhrebfd.Common.{ℕ, String, Bool, format, join_path, Option, none, some, List, [], ◌∷◌}
use test_frerfhrebfd.Exec.{Exec}

-- A call of `utils.execute`: its words, how often it is tried, and the `PATH` that it is given, with
-- which it is one line for the shell.
pub record Call : Type 0 where
  pub words : List String
  pub attempts : ℕ
  pub path_variable : Option String

pub record Shell (W : Type 0) : Type 0 where
  -- the standard output of the command
  pub execute : Call → Exec W String
  pub mkdtemp : Exec W String
  pub exists : String → W → Bool
  pub makedirs : String → Exec W (Unit {0})
  pub rmtree : String → Exec W (Unit {0})
  -- `os.environ.get('PATH', '')`
  pub environ_path : String

abbrev pub command : List String → Call
command words = record { words = words; attempts = 1; path_variable = none }

abbrev pub patient : List String → Call
patient words = record { words = words; attempts = 3; path_variable = none }

abbrev pub in_shell : String → String → Call
in_shell path_variable line = record {
  words = line ∷ [];
  attempts = 1;
  path_variable = some path_variable;
}

abbrev pub bind_mounts : List String
bind_mounts = "/dev" ∷ "/proc" ∷ "/run" ∷ []

abbrev pub mount : String → String → Call
mount partition path = command ("mount" ∷ partition ∷ path ∷ [])

abbrev pub bind_mount : String → String → Call
bind_mount path fs = command ("mount" ∷ "-o" ∷ "bind" ∷ fs ∷ (path +++ fs) ∷ [])

abbrev pub mount_sysfs : String → Call
mount_sysfs path = command ("mount" ∷ "-t" ∷ "sysfs" ∷ "none" ∷ (path +++ "/sys") ∷ [])

abbrev pub umount : String → Call
umount path = patient ("umount" ∷ path ∷ [])

abbrev pub efi_mount_point : String → String
efi_mount_point path = join_path path "boot/efi"

abbrev pub grub_install : String → String → String → String → Call
grub_install path_variable path bin dev =
    in_shell path_variable
      (format ("chroot " ∷ path ∷ " /bin/sh -c \"" ∷ bin ∷ "-install " ∷ dev ∷ "\"" ∷ []))

abbrev pub grub_install_removable : String → String → String → String → Call
grub_install_removable path_variable path bin dev =
    in_shell path_variable (
      format
        ("chroot " ∷ path ∷ " /bin/sh -c \"" ∷ bin ∷ "-install " ∷ dev ∷ " --removable\"" ∷ []))

abbrev pub grub_mkconfig : String → String → String → Call
grub_mkconfig path_variable path bin = in_shell path_variable (
    format (
      "chroot " ∷ path ∷ " /bin/sh -c \"" ∷ bin ∷ "-mkconfig -o /boot/" ∷ bin ∷ "/grub.cfg\"" ∷ []))
