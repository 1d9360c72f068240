-- ===== src/Samples/BlockDevices.antt =====
-- hardware.py: a disk with a link, beside a loop device; udev does not know the disk.
use test_frerfhrebfd.Common.{
  String, false, none, some, [], ◌∷◌, ℤ, str_eq, format, join_path, shlex_split, text_after,
  text_before, if◌then◌else◌, ◌≡◌, refl,
}
use test_frerfhrebfd.Errors.Hierarchy.{ErrorClass, is_subclass}
use test_frerfhrebfd.Errors.Build.{Error, foreign_error}
use test_frerfhrebfd.Exec.{ok, err}
use test_frerfhrebfd.Extensions.Image.Partition.{read_line}
use test_frerfhrebfd.Hardware.Listing.{
  Machine, DeviceInfo, abspath, must_be_returned, list_all_block_devices,
}
use test_frerfhrebfd.Hardware.Listing.Listed.{Listed, list_all_block_devices-Listed}

abbrev no_file : String → Error
no_file path = foreign_error ErrorClass.os_error path

abbrev disk_line : String
disk_line = "KNAME=\"sda\" MODEL=\"QEMU DISK \" SIZE=\"1024\" ROTA=\"0\" TYPE=\"disk\"\n"

abbrev loop_line : String
loop_line = "KNAME=\"loop0\" MODEL=\"\" SIZE=\"7\" TYPE=\"loop\"\n"

abbrev machine : Machine
machine = record {
  settle = ok tt;
  list_dir = λ path.
      if str_eq path "/dev/disk/by-path"
      then ok ("pci-0:1" ∷ [])
      else if str_eq path "/sys/block/sda/device/scsi_device"
      then ok ("1:0:0:0" ∷ [])
      else err (no_file path);
  read_link = λ path. ok "../../sda";
  report = ok (format (disk_line ∷ loop_line ∷ []));
  udev = λ name. err (foreign_error ErrorClass.udev_not_found_error name);
  read = λ path. ok "ATA \n";
}

abbrev sda : DeviceInfo
sda = record {
  name = "/dev/sda";
  model = "QEMU DISK";
  size = ℤ.pos 1024;
  rotational = false;
  vendor = some "ATA";
  by_path = some "/dev/disk/by-path/pci-0:1";
  wwn = none;
  serial = none;
  wwn_with_extension = none;
  wwn_vendor_extension = none;
  hctl = some "1:0:0:0";
}

abspath_run : abspath "/dev/disk/by-path/../../sda" ≡ "/dev/sda"
unfolding abspath format
abspath_run = refl

listing_run : list_all_block_devices machine "disk" ≡ ok (sda ∷ [])
unfolding list_all_block_devices abspath read_line format shlex_split text_after text_before
    is_subclass foreign_error join_path
listing_run = refl

-- The loop device lacks the column ROTA.
loop_run : list_all_block_devices machine "loop" ≡ err (must_be_returned ("ROTA" ∷ []))
unfolding list_all_block_devices abspath read_line format shlex_split text_after text_before
loop_run = refl

list_all_block_devices-Listed_example : Listed machine "disk" (sda ∷ [])
list_all_block_devices-Listed_example =
    list_all_block_devices-Listed machine "disk" (sda ∷ []) listing_run
