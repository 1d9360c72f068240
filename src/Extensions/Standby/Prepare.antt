-- ===== src/Extensions/Standby/Prepare.antt =====
-- extensions/standby.py: writing an image to the disk, `cache_image` and `prepare_image`.
pub mod Ready
use test_frerfhrebfd.Common.{
  ℕ, String, Bool, true, false, Option, none, some, List, [], ◌∷◌, ◌++◌, not, ◌&&◌, ◌||◌, str_eq,
  format, show, ltb, if◌then◌else◌,
}
use test_frerfhrebfd.Errors.Hierarchy.{ErrorClass, is_subclass}
use test_frerfhrebfd.Errors.Build.{
  Error, Extra, rest_error_init, foreign_error, image_write_error, str,
}
use test_frerfhrebfd.Exec.{
  Result, ok, err, Exec, pure, raise, gets, except, try_except, modify, ◌>>=◌, ◌>>◌,
}
use test_frerfhrebfd.Extensions.Standby.Info.{ImageInfo}
use test_frerfhrebfd.Extensions.Standby.Download.{
  Services, image_location, download_image, stream_raw_image_onto_device,
}

-- The UUIDs of partitions that `work_on_disk` returns.
pub record Uuids : Type 0 where
  pub root_uuid : Option String
  pub efi_system_partition_uuid : Option String

-- What `work_on_disk` is given beside the device, the image and the processor.
pub record Partitions : Type 0 where
  pub root_mb : ℕ
  pub swap_mb : ℕ
  pub ephemeral_mb : ℕ
  pub ephemeral_format : Option String
  pub preserve_ephemeral : Bool
  pub configdrive : Option String
  pub node_uuid : Option String
  pub boot_option : String
  pub boot_mode : String
  pub disk_label : String

-- The calls of ironic-lib and of commands, and the dispatch to the hardware managers.
pub record Disks (W : Type 0) : Type 0 where
  pub get_os_install_device : Exec W String
  pub get_cpus : Exec W String
  pub get_image_mb : String → Exec W ℕ
  pub work_on_disk : String → String → String → Partitions → Exec W Uuids
  pub write_image_sh : String → String → Exec W (Unit {0})
  pub get_disk_identifier : String → Exec W String
  pub create_config_drive_partition : String → String → String → Exec W (Unit {0})

-- `StandbyExtension`
pub record Standby (W : Type 0) : Type 0 where
  pub cached_image_id : Option String
  pub partition_uuids : Option Uuids
  pub world : W

abbrev or_default : String → Option String → String
or_default d none = d
or_default d (some a) = a

abbrev pub has : Option String → String → Bool
has none s = false
has (some t) s = str_eq t s

abbrev pub is_partition : ImageInfo → Bool
is_partition image_info = has image_info.image_type "partition"

-- `image_info[key]`
subscript : {A : Type 0} → String → Option A → Result A
subscript key none = err (foreign_error ErrorClass.key_error key)
subscript key (some a) = ok a

-- The error of a failed write, with the exit code and the output of the command.
write_failed : String → Extra → Error
write_failed device (Extra.process_output exit_code stdout stderr) =
    image_write_error device exit_code stdout stderr
write_failed device _ = image_write_error device 0 "" ""

module _ {W : Type 0} where
  abbrev pub in_world : {A : Type 0} → Exec W A → Exec (Standby W) A
  in_world m s = let (r, w) = m s.world in (r, record s { world = w })

module _ {W : Type 0} (services : Services W) (disks : Disks W) (image_info : ImageInfo) where
  abbrev lift : {A : Type 0} → Result A → Exec W A
  lift r s = (r, s)

  abbrev partitions : ℕ → ℕ → ℕ → Option String → Bool → Option String → Partitions
  partitions root_mb swap_mb ephemeral_mb ephemeral_format preserve_ephemeral configdrive = record {
    root_mb = root_mb;
    swap_mb = swap_mb;
    ephemeral_mb = ephemeral_mb;
    ephemeral_format = ephemeral_format;
    preserve_ephemeral = preserve_ephemeral;
    configdrive = configdrive;
    node_uuid = image_info.node_uuid;
    boot_option = or_default "netboot" image_info.boot_option;
    boot_mode = or_default "bios" image_info.deploy_boot_mode;
    disk_label = or_default "msdos" image_info.disk_label;
  }

  -- `_write_partition_image`
  unfoldable pub write_partition_image : String → String → Exec W Uuids
  unfolding subscript write_failed except ◌>>=◌
  write_partition_image image device = do
    preserve_ep ← lift (subscript "preserve_ephemeral" image_info.preserve_ephemeral)
    configdrive ← lift (subscript "configdrive" image_info.configdrive)
    image_mb ← disks.get_image_mb image
    root_mb ← lift (subscript "root_mb" image_info.root_mb)
    cpu_arch ← disks.get_cpus
    (if ltb root_mb image_mb
        then raise (
            rest_error_init ErrorClass.invalid_command_params_error (
              format (
                "Root partition is too small for requested image. Image virtual size: "
                ∷ show image_mb
                ∷ " MB, Root size: "
                ∷ show root_mb
                ∷ " MB"
                ∷ [])))
        else except ErrorClass.process_execution_error
            (do
              swap_mb ← lift (subscript "swap_mb" image_info.swap_mb)
              ephemeral_mb ← lift (subscript "ephemeral_mb" image_info.ephemeral_mb)
              ephemeral_format ← lift (subscript "ephemeral_format" image_info.ephemeral_format)
              disks.work_on_disk device image cpu_arch (
                  partitions root_mb swap_mb ephemeral_mb ephemeral_format preserve_ep configdrive))
            (λ e. raise (write_failed device e.extra)))

  -- `_write_whole_disk_image`
  unfoldable pub write_whole_disk_image : String → String → Exec W (Unit {0})
  unfolding write_failed except
  write_whole_disk_image image device =
      except ErrorClass.process_execution_error (disks.write_image_sh image device)
        (λ e. raise (write_failed device e.extra))

  abbrev no_uuids : Uuids
  no_uuids = record { root_uuid = none; efi_system_partition_uuid = none }

  -- `_write_image`
  unfoldable pub write_image : String → Exec W Uuids
  unfolding write_partition_image write_whole_disk_image ◌>>=◌
  write_image device =
      if is_partition image_info
      then write_partition_image (image_location image_info) device
      else (do write_whole_disk_image (image_location image_info) device; pure no_uuids)

  -- `_cache_and_write_image`
  unfoldable pub cache_and_write_image : String → Exec (Standby W) (Unit {0})
  unfolding write_image ◌>>=◌
  cache_and_write_image device = do
    in_world (download_image services image_info)
    uuids ← in_world (write_image device)
    modify (λ s. record s { partition_uuids = some uuids })
    modify (λ s. record s { cached_image_id = some image_info.id })

  none_text : Option String → String
  none_text none = "None"
  none_text (some s) = s

  partition_message : String → String → Uuids → String
  unfolding none_text
  partition_message msg device uuids =
      if has image_info.deploy_boot_mode "uefi" && has image_info.boot_option "local"
      then format (
          msg
          ∷ "root_uuid="
          ∷ none_text uuids.root_uuid
          ∷ " efi_system_partition_uuid="
          ∷ none_text uuids.efi_system_partition_uuid
          ∷ [])
      else format (msg ∷ "root_uuid=" ∷ none_text uuids.root_uuid ∷ [])

  -- `partition_uuids.get` of a `None`
  partition_or_error : String → String → Option Uuids → Result String
  unfolding partition_message
  partition_or_error msg device none =
      err (foreign_error ErrorClass.exception "'NoneType' object has no attribute 'get'")
  partition_or_error msg device (some uuids) = ok (partition_message msg device uuids)

  -- `_message_format`; `msg` has been formatted with the image and the device already
  unfoldable pub message_format : String → String → Option Uuids → Exec W String
  unfolding partition_or_error except ◌>>=◌
  message_format msg device partition_uuids =
      if is_partition image_info
      then lift (partition_or_error msg device partition_uuids)
      else except ErrorClass.os_error
          (do
            root_uuid ← disks.get_disk_identifier device
            pure (format (msg ∷ "root_uuid=" ∷ root_uuid ∷ [])))
          (λ e. pure msg)

  -- The message, with the partitions of the state.
  unfoldable pub report : String → String → Exec (Standby W) String
  report msg device s = in_world (message_format msg device s.partition_uuids) s

  abbrev pub is_cached : Standby W → Bool
  is_cached s = has s.cached_image_id image_info.id

  abbrev image_message : String → String → String
  image_message what device =
      format ("image (" ∷ image_info.id ∷ ") " ∷ what ∷ " device " ∷ device ∷ " " ∷ [])

  -- The image is written unless it is cached and not forced; the message says which.
  unfoldable pub cache_unless : Bool → String → Bool → Exec (Standby W) String
  unfolding cache_and_write_image ◌>>=◌
  cache_unless force device cached =
      if not cached || force
      then (do cache_and_write_image device; pure (image_message "cached to" device))
      else pure (image_message "already present on" device)

  unfoldable pub ensure_cached : Bool → String → Exec (Standby W) String
  unfolding cache_unless ◌>>=◌
  ensure_cached force device = do cached ← gets is_cached; cache_unless force device cached

  -- `cache_image`
  unfoldable pub cache_image : Bool → Exec (Standby W) String
  unfolding ensure_cached report ◌>>=◌
  cache_image force = do
    device ← in_world disks.get_os_install_device
    msg ← ensure_cached force device
    report msg device

  abbrev pub is_streamed : Bool
  is_streamed =
      elim image_info.stream_raw_images [ none ↦ false | some b ↦ b ]
      && has image_info.disk_format "raw"
      && not (is_partition image_info)

  -- The image is written unless it is cached.
  unfoldable pub provide_unless : String → Bool → Exec (Standby W) (Unit {0})
  unfolding cache_and_write_image
  provide_unless device cached =
      if cached
      then pure tt
      else if is_streamed
      then in_world (stream_raw_image_onto_device services image_info device)
      else cache_and_write_image device

  unfoldable pub provide_image : String → Exec (Standby W) (Unit {0})
  unfolding provide_unless ◌>>=◌
  provide_image device = do cached ← gets is_cached; provide_unless device cached

  unfoldable pub write_configdrive : Option String → String → Exec (Standby W) (Unit {0})
  write_configdrive none device = pure tt
  write_configdrive (some configdrive) device =
      if is_partition image_info
      then pure tt
      else in_world (
          disks.create_config_drive_partition (or_default "local" image_info.node_uuid) device
            configdrive)

  -- `prepare_image`
  unfoldable pub prepare_image : Option String → Exec (Standby W) String
  unfolding provide_image write_configdrive report ◌>>=◌
  prepare_image configdrive = do
    device ← in_world disks.get_os_install_device
    provide_image device
    write_configdrive configdrive device
    report (image_message "written to" device) device
