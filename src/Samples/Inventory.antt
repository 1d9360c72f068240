-- ===== src/Samples/Inventory.antt =====
-- dmi_inspector.py: the BIOS, a CPU with two flags, two memory arrays, and a device.
use test_frerfhrebfd.Common.{String, [], ◌∷◌, ℤ, format, ◌≡◌, refl}
use test_frerfhrebfd.Errors.Hierarchy.{ErrorClass}
use test_frerfhrebfd.Errors.Build.{foreign_error}
use test_frerfhrebfd.Exec.{ok, err}
use test_frerfhrebfd.Dmi.{Field, Rows, split_blocks, parse_handle_block}
use test_frerfhrebfd.Dmi.Parse.{MemoryField, Dmi, block_kind, int_of, parse_dmi}
use test_frerfhrebfd.Dmi.Parse.Parsed.{Parsed, parse_dmi-Parsed}

abbrev bios_block : String
bios_block = "Handle 0x0000, DMI type 0, 24 bytes\nBIOS Information\n\tVendor: A\n"

abbrev cpu_block : String
cpu_block = "\nHandle 0x0004, DMI type 4, 42 bytes\n\tFlags:\n\t\tFPU\n\t\tVME\n\tID: 1\n"

abbrev array_block : String
array_block = "\nHandle 0x0010, DMI type 16, 23 bytes\n\tNumber Of Devices: 2\n"

abbrev device_block : String
device_block = "\nHandle 0x0011, DMI type 17, 40 bytes\n\tSize: 8 GB\n"

abbrev output : String
output =
    format (
      "# dmidecode 3.2\n\n" ∷ bios_block ∷ cpu_block ∷ array_block ∷ device_block ∷ array_block
      ∷ [])

abbrev array_handle : String
array_handle = "Handle 0x0010, DMI type 16, 23 bytes"

abbrev device_rows : Rows
device_rows =
    ("Handle", Field.text "Handle 0x0011, DMI type 17, 40 bytes") ∷ ("Size", Field.text "8 GB") ∷ []

abbrev dmi : Dmi
dmi = record {
  bios_info =
      ("Handle", Field.text "Handle 0x0000, DMI type 0, 24 bytes")
      ∷ ("Vendor", Field.text "A")
      ∷ [];
  cpu_info =
      (("Handle", Field.text "Handle 0x0004, DMI type 4, 42 bytes")
        ∷ ("Flags", Field.items ("FPU" ∷ "VME" ∷ []))
        ∷ ("ID", Field.text "1")
        ∷ [])
      ∷ [];
  memory_info =
      ("Number Of Devices", MemoryField.number (ℤ.pos 4))
      ∷ ("devices", MemoryField.sections (device_rows ∷ []))
      ∷ [];
}

parse_run : parse_dmi output ≡ ok dmi
unfolding parse_dmi split_blocks parse_handle_block format block_kind int_of
parse_run = refl

-- A value that stays open after a row of the handle.
abbrev odd_block : String
odd_block = "Handle 0x1\nHandle:\nHandle 0x1\nx"

odd_run : parse_handle_block odd_block ≡ err (foreign_error ErrorClass.attribute_error "append")
unfolding parse_handle_block
odd_run = refl

parse_dmi-Parsed_example : Parsed (split_blocks output) dmi
parse_dmi-Parsed_example = parse_dmi-Parsed output dmi parse_run
