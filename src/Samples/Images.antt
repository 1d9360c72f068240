-- ===== src/Samples/Images.antt =====
-- extensions/standby.py: an image at the second of two URLs. The world is the number of calls made.
use test_frerfhrebfd.Common.{
  ℕ, suc, String, ◌≡◌, ◌↔◌, ◌⊎◌, refl, true, false, none, some, List, [], ◌∷◌, str_eq, join, format,
  show, contains, if◌then◌else◌,
}
use test_frerfhrebfd.Errors.Hierarchy.{is_subclass}
use test_frerfhrebfd.Errors.Build.{image_download_error}
use test_frerfhrebfd.Exec.{ok, Exec}
use test_frerfhrebfd.Value.{Value, Values, Fields}
use test_frerfhrebfd.Extensions.Standby.Info.{
  ImageInfo, validate_image_info, IsComplete, validate_image_info_iff,
}
use test_frerfhrebfd.Extensions.Standby.Download.{Response, Services, save}
use test_frerfhrebfd.Extensions.Standby.Download.Saved.{Saved, save-Saved}
use test_frerfhrebfd.Extensions.Standby.Prepare.{
  Disks, Standby, cache_image, prepare_image, message_format,
}
use test_frerfhrebfd.Extensions.Standby.Prepare.Ready.{Provided, prepare_image-Provided}
use test_frerfhrebfd.Extensions.Standby.Shutdown.{
  run_shutdown_command, Requested, run_shutdown_command-Requested,
}

abbrev image_info : ImageInfo
image_info = record {
  id = "cirros";
  urls = "http://a" ∷ "http://b" ∷ [];
  checksum = "onetwo";
  image_type = none;
  disk_format = some "raw";
  stream_raw_images = some true;
  node_uuid = none;
  boot_option = none;
  deploy_boot_mode = none;
  disk_label = none;
  root_mb = none;
  swap_mb = none;
  ephemeral_mb = none;
  ephemeral_format = none;
  preserve_ephemeral = none;
  configdrive = none;
}

abbrev response : String → Response
response url =
    if str_eq url "http://b"
    then record { status_code = 200; text = ""; iter_content = ok "one" ∷ ok "two" ∷ [] }
    else record { status_code = 404; text = "no such image"; iter_content = [] }

abbrev services : Services ℕ
services = record {
  get = λ info url s. (ok (response url), suc s);
  elapsed = λ s. (ok "0", s);
  hexdigest = λ chunks. join "" chunks;
  open_file = λ location s. (ok tt, suc s);
  write = λ location chunk s. (ok tt, suc s);
}

abbrev disks : Disks ℕ
disks = record {
  get_os_install_device = λ s. (ok "/dev/sda", suc s);
  get_cpus = λ s. (ok "x86_64", s);
  get_image_mb = λ image s. (ok 10, s);
  work_on_disk = λ device image cpu_arch p s.
      (ok (record { root_uuid = none; efi_system_partition_uuid = none }), suc s);
  write_image_sh = λ image device s. (ok tt, suc s);
  get_disk_identifier = λ device s. (ok "0x12", s);
  create_config_drive_partition = λ node_uuid device configdrive s. (ok tt, suc s);
}

saved : save services image_info "Unable to write image to " "/tmp/cirros" 0 ≡ (ok tt, 5)
unfolding save is_subclass image_download_error show format join
saved = refl

save-Saved_example : Saved services image_info "/tmp/cirros" 5
save-Saved_example =
    save-Saved services image_info "Unable to write image to " "/tmp/cirros" 0 5 saved

abbrev fresh : Standby ℕ
fresh = record { cached_image_id = none; partition_uuids = none; world = 0 }

abbrev cached : Standby ℕ
cached = record {
  cached_image_id = some "cirros";
  partition_uuids = some (record { root_uuid = none; efi_system_partition_uuid = none });
  world = 7;
}

cache :
    cache_image services disks image_info false fresh
    ≡ (ok "image (cirros) cached to device /dev/sda root_uuid=0x12", cached)
unfolding cache_image message_format save is_subclass image_download_error show format join
cache = refl

-- A raw image is streamed, and its id is not remembered.
abbrev streamed : Standby ℕ
streamed = record { cached_image_id = none; partition_uuids = none; world = 6 }

prepare :
    prepare_image services disks image_info none fresh
    ≡ (ok "image (cirros) written to device /dev/sda root_uuid=0x12", streamed)
unfolding prepare_image message_format save is_subclass image_download_error show format join
prepare = refl

prepare_image-Provided_example :
    (device : String) × (u : ℕ) × (disks.get_os_install_device fresh.world ≡ (ok device, u))
    × Provided services disks image_info device fresh streamed
prepare_image-Provided_example =
    prepare_image-Provided services disks image_info none fresh streamed
      "image (cirros) written to device /dev/sda root_uuid=0x12" prepare

abbrev fields : Fields
fields = Fields.field "id" (Value.text "cirros") (
    Fields.field "urls" (Value.list (Values.cons (Value.text "http://b") Values.nil))
      (Fields.field "checksum" (Value.text "onetwo") Fields.end))

validate_image_info_iff_example : (validate_image_info (some fields) ≡ ok tt) ↔ IsComplete fields
validate_image_info_iff_example = validate_image_info_iff fields

-- The command refuses, and the SysRq trigger does what it was asked for.
abbrev refusing : List String → Exec ℕ (String × String)
refusing [] s = (ok ("", ""), suc s)
refusing (command ∷ args) s =
    (ok ("", if str_eq command "reboot" then "Running in chroot, ignoring request." else ""), suc s)

rebooted : run_shutdown_command refusing "reboot" 0 ≡ (ok tt, 3)
unfolding run_shutdown_command contains
rebooted = refl

abbrev reboot : String
reboot = "reboot"

run_shutdown_command-Requested_example :
    ((reboot ≡ "reboot") ⊎ (reboot ≡ "poweroff")) × Requested refusing "reboot" 3
run_shutdown_command-Requested_example =
    run_shutdown_command-Requested refusing "reboot" 0 3 rebooted
