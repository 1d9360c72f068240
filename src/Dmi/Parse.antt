-- ===== src/Dmi/Parse.antt =====
-- dmi_inspector.py: `parse_dmi` and `_save_data`.
pub mod Sorted
pub mod Parsed
use test_frerfhrebfd.Common.{
  String, Bool, true, false, Option, none, some, List, [], ◌∷◌, ◌++◌, ℤ, int_eq, ◌+ℤ◌, str_eq, get,
  insert, starts_with, parse_int, if◌then◌else◌,
}
use test_frerfhrebfd.Errors.Hierarchy.{ErrorClass}
use test_frerfhrebfd.Errors.Build.{foreign_error}
use test_frerfhrebfd.Exec.{Result, ok, err}
use test_frerfhrebfd.Exec.Fallible.{◌>>=◌}
use test_frerfhrebfd.Dmi.{Field, Rows, split_blocks, block_type, parse_handle_block}

-- The values of `TYPE`, and which of them a type is.
pub data Kind : Type 0 where
  bios cpu memory devices : Kind

abbrev pub kind_of : Option ℤ → Option Kind
kind_of none = none
kind_of (some n) =
    if int_eq n (ℤ.pos 0)
    then some bios
    else if int_eq n (ℤ.pos 4)
    then some cpu
    else if int_eq n (ℤ.pos 16)
    then some memory
    else if int_eq n (ℤ.pos 17)
    then some devices
    else none

-- `dmi_info['bios']` and `['cpu']`, `memorydata` and `devicedata`
pub record Sections : Type 0 where
  pub bios_rows : Rows
  pub cpu_rows : List Rows
  pub memory_data : List Rows
  pub device_data : List Rows

abbrev pub put_section : Kind → Rows → Sections → Sections
put_section bios rows s = record s { bios_rows = rows }
put_section cpu rows s = record s { cpu_rows = s.cpu_rows ++ (rows ∷ []) }
put_section memory rows s = record s { memory_data = s.memory_data ++ (rows ∷ []) }
put_section devices rows s = record s { device_data = s.device_data ++ (rows ∷ []) }

-- What kind of section a block is; none, where the loop goes on to the next block.
unfoldable pub block_kind : String → Option Kind
unfolding starts_with block_type
block_kind infoblock =
    if str_eq infoblock ""
    then none
    else if starts_with "Handle 0x" infoblock
    then kind_of (block_type infoblock)
    else none

abbrev pub add_if : Option Kind → String → Sections → Result Sections
add_if none infoblock s = ok s
add_if (some kind) infoblock s =
    parse_handle_block infoblock >>= λ rows. ok (put_section kind rows s)

unfoldable pub add_blocks : List String → Sections → Result Sections
add_blocks [] s = ok s
add_blocks (infoblock ∷ rest) s =
    add_if (block_kind infoblock) infoblock s >>= λ s'. add_blocks rest s'

-- What `dmi_info['memory']` holds.
pub data MemoryField : Type 0 where
  field : Field → MemoryField
  number : ℤ → MemoryField
  sections : List Rows → MemoryField

abbrev pub MemoryRows : Type 0
MemoryRows = List (String × MemoryField)

abbrev pub as_fields : Rows → MemoryRows
as_fields [] = []
as_fields ((k, v) ∷ rows) = (k, field v) ∷ as_fields rows

abbrev int_or_error : String → Option ℤ → Result ℤ
int_or_error s none = err (foreign_error ErrorClass.value_error s)
int_or_error s (some n) = ok n

-- `int(d['Number Of Devices'])`
unfoldable pub int_of : Option Field → Result ℤ
unfolding parse_int
int_of none = err (foreign_error ErrorClass.key_error "Number Of Devices")
int_of (some (Field.items lines)) = err (foreign_error ErrorClass.type_error "int")
int_of (some (Field.text s)) = int_or_error s (parse_int s)

-- `sum`, which starts at 0
unfoldable pub sum_from : ℤ → List Rows → Result ℤ
sum_from n [] = ok n
sum_from n (d ∷ ds) = int_of (get "Number Of Devices" d) >>= λ m. sum_from (n +ℤ m) ds

abbrev pub remove : String → MemoryRows → MemoryRows
remove k [] = []
remove k ((j, v) ∷ d) = if str_eq j k then d else (j, v) ∷ remove k d

-- `d.pop(k)`
unfoldable pub pop : String → MemoryRows → Option MemoryField → Result MemoryRows
pop k d none = err (foreign_error ErrorClass.key_error k)
pop k d (some v) = ok (remove k d)

unfoldable pub count_devices : List Rows → MemoryRows → Result MemoryRows
unfolding sum_from pop
count_devices [] initial = ok initial
count_devices (first ∷ rest) initial = do
  device_count ← sum_from (ℤ.pos 0) (first ∷ rest)
  let counted = insert "Number Of Devices" (number device_count) (as_fields first)
  pop "Handle" counted (get "Handle" counted)

abbrev pub put_devices : List Rows → MemoryRows → MemoryRows
put_devices [] d = d
put_devices (first ∷ rest) d = insert "devices" (sections (first ∷ rest)) d

-- `dmi_info`
pub record Dmi : Type 0 where
  pub bios_info : Rows
  pub cpu_info : List Rows
  pub memory_info : MemoryRows

abbrev pub dmi_of : Sections → MemoryRows → Dmi
dmi_of s d = record {
  bios_info = s.bios_rows;
  cpu_info = s.cpu_rows;
  memory_info = put_devices s.device_data d;
}

-- `_save_data`; `dmi_info['memory']` is still the one it starts with
unfoldable pub save_data : Sections → Result Dmi
unfolding count_devices
save_data s = count_devices s.memory_data (("devices", sections []) ∷ []) >>= λ d. ok (dmi_of s d)

abbrev pub no_sections : Sections
no_sections = record { bios_rows = []; cpu_rows = []; memory_data = []; device_data = [] }

-- `parse_dmi`
unfoldable pub parse_dmi : String → Result Dmi
unfolding split_blocks add_blocks save_data
parse_dmi output = add_blocks (split_blocks output) no_sections >>= save_data
