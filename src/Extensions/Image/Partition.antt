-- ===== src/Extensions/Image/Partition.antt =====
-- extensions/image.py: `_get_partition`.
pub mod Found
use Prim.Native.String.{◌++◌}
use test_frerfhrebfd.Common.{
  String, Bool, true, false, Option, none, some, List, [], ◌∷◌, not, str_eq, get, insert, format,
  text_after, text_before, contains, strip, split_lines, shlex_split, if◌then◌else◌,
}
use test_frerfhrebfd.Errors.Hierarchy.{ErrorClass}
use test_frerfhrebfd.Errors.Build.{Error, rest_error_init, foreign_error, str}
use test_frerfhrebfd.Exec.{Result, ok, err, Exec, pure, raise, except, continue, ◌>>=◌, ◌>>◌}
use test_frerfhrebfd.Extensions.Image.{Shell, command, patient}

abbrev pub Part : Type 0
Part = List (String × String)

unfoldable pub value_error : String → Error
value_error text = foreign_error ErrorClass.value_error text

-- `key, val = v.split('=', 1)` and `part[key] = val.strip()`
set_pair : String → Option String → Part → Result Part
unfolding value_error
set_pair v none part = err (value_error "not enough values to unpack (expected 2, got 1)")
set_pair v (some val) part = ok (insert (text_before "=" v) (strip val) part)

unfoldable pub read_pairs : List String → Part → Result Part
unfolding set_pair
read_pairs [] part = ok part
read_pairs (v ∷ vals) part = elim (set_pair v (text_after "=" v) part) [
  | err e ↦ err e
  | ok part' ↦ read_pairs vals part'
]

read_words : Option (List String) → Result Part
unfolding read_pairs value_error
read_words none = err (value_error "No closing quotation")
read_words (some vals) = read_pairs vals []

-- The KEY=VAL pairs of a line.
unfoldable pub read_line : String → Result Part
unfolding read_words
read_line line = read_words (shlex_split line)

-- `part.get(key) == value`
abbrev pub has_value : String → String → Part → Bool
has_value key value part = elim (get key part) [ none ↦ false | some v ↦ str_eq v value ]

-- The line is a partition with this UUID or this PARTUUID.
abbrev pub is_wanted : String → Part → Bool
is_wanted uuid part =
    if not (has_value "TYPE" "part" part)
    then false
    else if has_value "UUID" uuid part
    then true
    else has_value "PARTUUID" uuid part

-- `'/dev/' + part.get('KNAME')`
unfoldable pub device_path : Option String → Result String
device_path none = err (foreign_error ErrorClass.exception "must be str, not NoneType")
device_path (some kname) = ok ("/dev/" ++ kname)

unfoldable pub not_found : String → String → Error
not_found device uuid =
    rest_error_init ErrorClass.device_not_found
      (format ("No partition with UUID " ∷ uuid ∷ " found on device " ∷ device ∷ []))

-- The loop over the lines of the report.
unfoldable pub search_report : String → String → List String → Result String
unfolding read_line device_path
search_report device uuid [] = err (not_found device uuid)
search_report device uuid (line ∷ lines) = elim (read_line line) [
  | err e ↦ err e
  | ok part ↦ elim (is_wanted uuid part) [
    | true ↦ device_path (get "KNAME" part)
    | false ↦ search_report device uuid lines
  ]
]

finding_failed : String → String → Error → Error
finding_failed device uuid e = rest_error_init ErrorClass.command_execution_error (
    format (
      "Finding the partition with UUID "
      ∷ uuid
      ∷ " on device "
      ∷ device
      ∷ " failed with "
      ∷ str e
      ∷ []))

abbrev pub lsblk : String → List String
lsblk device = "lsblk" ∷ "-PbioKNAME,UUID,PARTUUID,TYPE" ∷ device ∷ []

module _ {W : Type 0} (shell : Shell W) where
  -- The kernel is told to read the partition table again; it may fail to.
  unfoldable pub reread_partitions : String → Exec W (Unit {0})
  unfolding except ◌>>=◌
  reread_partitions device =
      except ErrorClass.process_execution_error
        (do
          shell.execute (patient ("partx" ∷ "-u" ∷ device ∷ []))
          shell.execute (command ("udevadm" ∷ "settle" ∷ []))
          pure tt)
        (λ e. pure tt)

  unfoldable pub ask_report : String → String → Exec W String
  unfolding reread_partitions ◌>>=◌
  ask_report device uuid = do
    reread_partitions device
    report ← shell.execute (command (lsblk device))
    (λ w. (search_report device uuid (split_lines report), w))

  -- `_get_partition`
  unfoldable pub get_partition : String → String → Exec W String
  unfolding ask_report finding_failed except
  get_partition device uuid =
      except ErrorClass.process_execution_error (ask_report device uuid)
        (λ e. raise (finding_failed device uuid e))
