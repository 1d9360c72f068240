-- ===== src/Hardware/Listing.antt =====
-- hardware.py: `list_all_block_devices`. `Machine` holds what the calls of tools, of udev and of the
-- file system give; a line of lsblk is read as a partition's is in extensions/image.py.
pub mod Listed
use test_frerfhrebfd.Common.{
  String, Bool, true, false, Option, none, some, List, [], ◌∷◌, ℤ, int_eq, not, ◌||◌, get, insert,
  format, join, join_path, basename, strip, split_lines, parse_int, is_in, str_eq, if◌then◌else◌,
}
use test_frerfhrebfd.Errors.Hierarchy.{ErrorClass, is_subclass}
use test_frerfhrebfd.Errors.Build.{Error, foreign_error, rest_error_init}
use test_frerfhrebfd.Exec.{Result, ok, err}
use test_frerfhrebfd.Exec.Fallible.{◌>>=◌}
use test_frerfhrebfd.Params.Parse.{slash_parts}
use test_frerfhrebfd.Extensions.Image.Partition.{Part, read_line, has_value}

pub record Machine : Type 0 where
  pub settle : Result (Unit {0})
  pub list_dir : String → Result (List String)
  pub read_link : String → Result String
  -- the report of lsblk
  pub report : Result String
  -- the properties that udev has of a device file
  pub udev : String → Result (String → Option String)
  pub read : String → Result String

-- The arguments of the class BlockDevice; what is not given is None.
pub record DeviceInfo : Type 0 where
  pub name : String
  pub model : String
  pub size : ℤ
  pub rotational : Bool
  pub vendor : Option String
  pub by_path : Option String
  pub wwn : Option String
  pub serial : Option String
  pub wwn_with_extension : Option String
  pub wwn_vendor_extension : Option String
  pub hctl : Option String

abbrev of_class : ErrorClass → Error → Bool
of_class c e = is_subclass e.class c

-- `except` with a value in its place
abbrev pub value_or : {A : Type 0} → (Error → Bool) → A → Result A → Result A
value_or caught a (ok b) = ok b
value_or caught a (err e) = if caught e then ok a else err e

abbrev without_last : List String → List String
without_last [] = []
without_last (part ∷ parts) = parts

-- The parts of a path that is absolute, the last first.
normal_parts : List String → List String → List String
normal_parts [] done = done
normal_parts (part ∷ parts) done = normal_parts parts (
    if str_eq part "" || str_eq part "."
    then done
    else if str_eq part ".."
    then without_last done
    else part ∷ done)

join_reversed : List String → String → String
join_reversed [] path = if str_eq path "" then "/" else path
join_reversed (part ∷ parts) path = join_reversed parts (format ("/" ∷ part ∷ path ∷ []))

-- `os.path.abspath`, of a path that begins with a slash
unfoldable pub abspath : String → String
unfolding slash_parts normal_parts join_reversed
abspath path = join_reversed (normal_parts (slash_parts path) []) ""

abbrev pub columns : List String
columns = "KNAME" ∷ "MODEL" ∷ "ROTA" ∷ "SIZE" ∷ "TYPE" ∷ []

abbrev has_column : Part → String → Bool
has_column device column = elim (get column device) [ none ↦ false | some v ↦ true ]

-- `sorted(set(columns) - set(device))`
abbrev pub missing_from : Part → List String → List String
missing_from device [] = []
missing_from device (column ∷ rest) =
    if has_column device column then missing_from device rest else column ∷ missing_from device rest

unfoldable pub must_be_returned : List String → Error
must_be_returned missing =
    rest_error_init ErrorClass.block_device_error
      (format (join ", " missing ∷ " must be returned by lsblk." ∷ []))

abbrev pub check_columns : List String → Result (Unit {0})
check_columns [] = ok tt
check_columns (column ∷ rest) = err (must_be_returned (column ∷ rest))

-- `device[key]`
unfoldable pub column_of : String → Part → Result String
column_of key device = elim (get key device) [
  | none ↦ err (foreign_error ErrorClass.key_error key)
  | some v ↦ ok v
]

unfoldable pub to_int : String → Result ℤ
unfolding parse_int
to_int s = elim (parse_int s) [
  | none ↦ err (foreign_error ErrorClass.value_error s)
  | some n ↦ ok n
]

abbrev first_address : List String → Option String
first_address [] = none
first_address (x ∷ xs) = some x

abbrev inaccessible : Error → Bool
inaccessible e =
    of_class ErrorClass.value_error e
    || of_class ErrorClass.os_error e
    || of_class ErrorClass.udev_not_found_error e

abbrev disk_by_path_dir : String
disk_by_path_dir = "/dev/disk/by-path"

abbrev Mapping : Type 0
Mapping = List (String × String)

module _ (machine : Machine) where
  -- The links, until one cannot be read.
  unfoldable pub map_paths : List String → Mapping → Result Mapping
  unfolding abspath
  map_paths [] mapping = ok mapping
  map_paths (path ∷ paths) mapping = elim (machine.read_link (join_path disk_by_path_dir path)) [
    | err e ↦ if of_class ErrorClass.os_error e then ok mapping else err e
    | ok link ↦ map_paths paths (
        insert (abspath (join_path disk_by_path_dir link)) (join_path disk_by_path_dir path)
          mapping)
  ]

  unfoldable pub by_path_mapping : Result Mapping
  unfolding map_paths
  by_path_mapping =
      value_or (of_class ErrorClass.os_error) [] (machine.list_dir disk_by_path_dir) >>= λ paths.
      map_paths paths []

  -- `_get_device_info(kname, 'block', 'vendor')`
  unfoldable pub vendor_of : String → Result (Option String)
  unfolding basename strip
  vendor_of kname = value_or (of_class ErrorClass.os_error) none (
      machine.read (format ("/sys/class/block/" ∷ basename kname ∷ "/device/vendor" ∷ []))
      >>= λ text. ok (some (strip text)))

  -- The SCSI address, if it is there.
  unfoldable pub hctl_of : String → Result (Option String)
  hctl_of kname = value_or (of_class ErrorClass.os_error) none (
      machine.list_dir (format ("/sys/block/" ∷ kname ∷ "/device/scsi_device" ∷ []))
      >>= λ addresses. ok (first_address addresses))

  abbrev no_properties : String → Option String
  no_properties key = none

  unfoldable pub properties_of : String → Result (String → Option String)
  properties_of name = value_or inaccessible no_properties (machine.udev name)

  abbrev pub device_info :
      String
      → String
      → ℤ
      → ℤ
      → Option String
      → Option String
      → (String → Option String)
      → Option String
      → DeviceInfo
  device_info name model size rota vendor by_path properties hctl = record {
    name = name;
    model = model;
    size = size;
    rotational = not (int_eq rota (ℤ.pos 0));
    vendor = vendor;
    by_path = by_path;
    wwn = properties "ID_WWN";
    serial = properties "ID_SERIAL_SHORT";
    wwn_with_extension = properties "ID_WWN_WITH_EXTENSION";
    wwn_vendor_extension = properties "ID_WWN_VENDOR_EXTENSION";
    hctl = hctl;
  }

  unfoldable pub describe : Mapping → Part → Result DeviceInfo
  unfolding column_of to_int properties_of vendor_of hctl_of
  describe mapping device = do
    kname ← column_of "KNAME" device
    let name = join_path "/dev" kname
    properties ← properties_of name
    hctl ← hctl_of kname
    model ← column_of "MODEL" device
    size_text ← column_of "SIZE" device
    size ← to_int size_text
    rota_text ← column_of "ROTA" device
    rota ← to_int rota_text
    vendor ← vendor_of kname
    ok (device_info name model size rota vendor (get name mapping) properties hctl)

  unfoldable pub take_device : Mapping → Part → Result DeviceInfo
  unfolding describe
  take_device mapping device =
      check_columns (missing_from device columns) >>= λ x. describe mapping device

  -- A device of another type is skipped.
  abbrev pub list_if :
      Bool → Result DeviceInfo → Result (List DeviceInfo) → Result (List DeviceInfo)
  list_if false found rest = rest
  list_if true found rest = found >>= λ device. rest >>= λ devices. ok (device ∷ devices)

  unfoldable pub list_lines : String → Mapping → List String → Result (List DeviceInfo)
  unfolding take_device
  list_lines block_type mapping [] = ok []
  list_lines block_type mapping (line ∷ lines) = read_line line >>= λ device.
      let rest = list_lines block_type mapping lines in
      list_if (has_value "TYPE" block_type device) (take_device mapping device) rest

  abbrev pub settled : Result (Unit {0})
  settled = value_or (of_class ErrorClass.process_execution_error) tt machine.settle

  -- `list_all_block_devices`
  unfoldable pub list_all_block_devices : String → Result (List DeviceInfo)
  unfolding by_path_mapping list_lines split_lines
  list_all_block_devices block_type = do
    done ← settled
    mapping ← by_path_mapping
    report ← machine.report
    list_lines block_type mapping (split_lines report)
