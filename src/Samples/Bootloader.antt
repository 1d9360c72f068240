-- ===== src/Samples/Bootloader.antt =====
-- extensions/image.py, extensions/iscsi.py: a disk with an EFI partition. The world is the number of
-- calls; Linux-IO has a target on the disk for `install_bootloader`, and is not there otherwise.
use test_frerfhrebfd.Common.{
  ℕ, suc, String, true, false, none, some, List, [], ◌∷◌, str_eq, shlex_split, split_lines, strip,
  text_after, text_before, format, join_path, if◌then◌else◌, ◌≡◌, refl,
}
use test_frerfhrebfd.Errors.Hierarchy.{ErrorClass, is_subclass}
use test_frerfhrebfd.Errors.Build.{foreign_error, process_execution_error}
use test_frerfhrebfd.Exec.{Result, ok, err, Exec}
use test_frerfhrebfd.Extensions.Image.{Shell}
use test_frerfhrebfd.Extensions.Image.Partition.{get_partition, search_report}
use test_frerfhrebfd.Extensions.Image.Partition.Found.{Found, get_partition-Found}
use test_frerfhrebfd.Extensions.Image.Bootloader.{
  install_bootloader, Bootable, install_bootloader-Bootable,
}
use test_frerfhrebfd.Extensions.Image.Grub.{install_grub2}
use test_frerfhrebfd.Extensions.Iscsi.CleanUp.{clean_up}
use test_frerfhrebfd.Extensions.Iscsi.{Root, Targets}
use test_frerfhrebfd.Extensions.Iscsi.Start.{start_iscsi_target}
use test_frerfhrebfd.Extensions.Iscsi.Start.Exposed.{Exposed, start_iscsi_target-Exposed}

shlex_run :
    shlex_split "KNAME=\"sda1\" UUID=\"a b\" X=\"\" t\\ u 'q'r"
    ≡ some ("KNAME=sda1" ∷ "UUID=a b" ∷ "X=" ∷ "t u" ∷ "qr" ∷ [])
unfolding shlex_split
shlex_run = refl

abbrev lsblk_report : String
lsblk_report =
    "KNAME=\"sda\" UUID=\"\" PARTUUID=\"\" TYPE=\"disk\"\nKNAME=\"sda1\" UUID=\"1-2\" PARTUUID=\"e\" TYPE=\"part\"\nKNAME=\"sda2\" UUID=\"r\" PARTUUID=\"q\" TYPE=\"part\"\n"

abbrev answer : {A : Type 0} → A → Exec ℕ A
answer a s = (ok a, suc s)

-- `partx` fails, which is of no account.
abbrev output : List String → Exec ℕ String
output [] s = answer "" s
output (name ∷ words) s =
    if str_eq name "lsblk"
    then answer lsblk_report s
    else if str_eq name "partx"
    then (err (process_execution_error 1 "" "" ""), suc s)
    else answer "" s

abbrev shell : Shell ℕ
shell = record {
  execute = λ call. output call.words;
  mkdtemp = answer "/tmp/x";
  exists = λ path s. false;
  makedirs = λ path. answer tt;
  rmtree = λ path. answer tt;
  environ_path = "/bin";
}

abbrev root : Root
root = record {
  storage_objects = record { name = "iqn.a"; udev_path = "/dev/sda" } ∷ [];
  targets = "iqn.b" ∷ "iqn.a" ∷ [];
}

abbrev targets_with : Result Root → Targets ℕ
targets_with found = record {
  execute = λ cmd attempts. answer "";
  generate_uuid = answer "1";
  get_os_install_device = answer "/dev/sda";
  get_node_uuid = answer "n";
  destroy_disk_metadata = λ device node_uuid. answer tt;
  rts_root = λ s. (found, suc s);
  dump = answer tt;
  block_storage_object = λ name dev. answer tt;
  create_target = λ iqn. answer tt;
  create_tpg = λ iqn. answer tt;
  set_attribute = λ name value. answer tt;
  create_lun = λ name lun. answer tt;
  enable_tpg = answer tt;
  listen_ip = answer "[::]";
  network_portal = λ ip port. answer tt;
  delete_target = λ name. answer tt;
  delete_storage = λ storage. answer tt;
}

partition_run : get_partition shell "/dev/sda" "q" 0 ≡ (ok "/dev/sda2", 2)
unfolding get_partition is_subclass process_execution_error split_lines shlex_split text_before
    text_after strip search_report
partition_run = refl

get_partition-Found_example : Found shell "/dev/sda" "q" "/dev/sda2" 2
get_partition-Found_example = get_partition-Found shell "/dev/sda" "q" "/dev/sda2" 0 2 partition_run

bootloader_run :
    install_bootloader shell (targets_with (ok root)) "r" (some "e") none 0 ≡ (ok tt, 26)
unfolding install_bootloader clean_up install_grub2 get_partition is_subclass
    process_execution_error split_lines shlex_split text_before text_after strip search_report
    join_path format
bootloader_run = refl

install_bootloader-Bootable_example :
    Bootable shell (targets_with (ok root)) "r" (some "e") none 0 26
install_bootloader-Bootable_example =
    install_bootloader-Bootable shell (targets_with (ok root)) "r" (some "e") none 0 26
      bootloader_run

abbrev no_lio : Targets ℕ
no_lio = targets_with (err (foreign_error ErrorClass.os_error "no Linux-IO"))

target_run :
    start_iscsi_target no_lio none true (some 3261) 0 ≡ (ok "iqn.2008-10.org.openstack:1", 11)
unfolding start_iscsi_target is_subclass foreign_error format
target_run = refl

start_iscsi_target-Exposed_example :
    Exposed no_lio none true (some 3261) "iqn.2008-10.org.openstack:1" 0 11
start_iscsi_target-Exposed_example =
    start_iscsi_target-Exposed no_lio none true (some 3261) "iqn.2008-10.org.openstack:1" 0 11
      target_run
