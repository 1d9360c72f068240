-- ===== src/Hardware/Listing/Listed.antt =====
-- hardware.py: which devices `list_all_block_devices` lists, and when it finds a column missing.
use mathlib.Core.Path.{subst}
use test_frerfhrebfd.Common.{
  String, true, false, some, List, [], ◌∷◌, get, split_lines, join_path, Option-cases, ◌≡◌, refl,
  ◌∙◌, sym, ap, Bool-cases, arith, inl, inr, if◌then◌else◌,
}
use test_frerfhrebfd.Exec.{Result, ok}
use test_frerfhrebfd.Exec.Fallible.{◌>>=◌, >>=-ok}
use test_frerfhrebfd.Extensions.Image.Partition.{Part, read_line, has_value}
use test_frerfhrebfd.Hardware.Listing.{
  Machine, DeviceInfo, Mapping, columns, missing_from, check_columns, column_of, to_int, describe,
  take_device, properties_of, hctl_of, vendor_of, device_info, by_path_mapping, list_if, list_lines,
  settled, list_all_block_devices,
}

-- The lines, as they are read.
unfoldable pub read_all_lines : List String → Result (List Part)
read_all_lines [] = ok []
read_all_lines (line ∷ lines) =
    read_line line >>= λ device. read_all_lines lines >>= λ rest. ok (device ∷ rest)

-- Those of the type.
abbrev pub of_type : String → List Part → List Part
of_type block_type [] = []
of_type block_type (device ∷ rest) =
    if has_value "TYPE" block_type device
    then device ∷ of_type block_type rest
    else of_type block_type rest

module _ (machine : Machine) where
  -- A device as it is listed: no column is missing, and its name, its size and its link are those of
  -- the columns and of the links.
  pub record Describes (mapping : Mapping) (device : Part) (found : DeviceInfo) : Type 0 where
    pub kname : String
    pub size_text : String
    pub complete : missing_from device columns ≡ []
    pub has_kname : get "KNAME" device ≡ some kname
    pub has_model : get "MODEL" device ≡ some found.model
    pub has_size : get "SIZE" device ≡ some size_text
    pub name_kept : found.name ≡ join_path "/dev" kname
    pub size_read : to_int size_text ≡ ok found.size
    pub by_path_kept : found.by_path ≡ get found.name mapping

  abbrev pub AllDescribed : Mapping → List Part → List DeviceInfo → Type 0
  AllDescribed mapping [] [] = Unit {0}
  AllDescribed mapping (device ∷ rest) (d ∷ ds) =
      Describes mapping device d × AllDescribed mapping rest ds
  AllDescribed mapping _ _ = ⊥

  column_of-get :
      (key v : String) (device : Part) → column_of key device ≡ ok v → get key device ≡ some v
  unfolding column_of
  column_of-get key v device h = elim (Option-cases (get key device)) [
    | inl e ↦ absurd (ground arith)
    | inr (w, e) ↦ ground arith
  ]

  complete-ok : (missing : List String) → check_columns missing ≡ ok tt → missing ≡ []
  complete-ok [] h = refl
  complete-ok (column ∷ rest) h = absurd (ground arith)

  take_device-Describes :
      (mapping : Mapping) (device : Part) (found : DeviceInfo)
      → take_device machine mapping device ≡ ok found
      → Describes mapping device found
  unfolding take_device describe
  take_device-Describes mapping device found h =
      let (x, complete, h1) = >>=-ok (check_columns (missing_from device columns)) _ found h in
      let (kname, has_kname, h2) = >>=-ok (column_of "KNAME" device) _ found h1 in
      let name = join_path "/dev" kname in
      let (properties, k, h3) = >>=-ok (properties_of machine name) _ found h2 in
      let (hctl, k2, h4) = >>=-ok (hctl_of machine kname) _ found h3 in
      let (model, has_model, h5) = >>=-ok (column_of "MODEL" device) _ found h4 in
      let (size_text, has_size, h6) = >>=-ok (column_of "SIZE" device) _ found h5 in
      let (size, size_read, h7) = >>=-ok (to_int size_text) _ found h6 in
      let (rota_text, k3, h8) = >>=-ok (column_of "ROTA" device) _ found h7 in
      let (rota, k4, h9) = >>=-ok (to_int rota_text) _ found h8 in
      let (vendor, k5, made) = >>=-ok (vendor_of machine kname) _ found h9 in
      let same : device_info machine name model size rota vendor (get name mapping) properties hctl
          ≡ found =
        ground (arith, made) in
      subst (Describes mapping device) same (record {
        kname = kname;
        size_text = size_text;
        complete = complete-ok (missing_from device columns) complete;
        has_kname = column_of-get "KNAME" kname device has_kname;
        has_model = column_of-get "MODEL" model device has_model;
        has_size = column_of-get "SIZE" size_text device has_size;
        name_kept = refl;
        size_read = size_read;
        by_path_kept = refl;
      })

  read_all_lines-cons :
      (line : String) (lines : List String) (device : Part) (read : List Part)
      → read_line line ≡ ok device
      → read_all_lines lines ≡ ok read
      → read_all_lines (line ∷ lines) ≡ ok (device ∷ read)
  unfolding read_all_lines
  read_all_lines-cons line lines device read h k = rw h (rw k refl)

  skip_other :
      (block_type : String) (mapping : Mapping) (device : Part) (read : List Part)
      (ds : List DeviceInfo)
      → has_value "TYPE" block_type device ≡ false
      → AllDescribed mapping (of_type block_type read) ds
      → AllDescribed mapping (of_type block_type (device ∷ read)) ds
  skip_other block_type mapping device read ds other all = rw other all

  describe_this :
      (block_type : String) (mapping : Mapping) (device : Part) (read : List Part) (d : DeviceInfo)
      (ds devices : List DeviceInfo)
      → has_value "TYPE" block_type device ≡ true
      → d ∷ ds ≡ devices
      → Describes mapping device d
      → AllDescribed mapping (of_type block_type read) ds
      → AllDescribed mapping (of_type block_type (device ∷ read)) devices
  describe_this block_type mapping device read d ds devices this made one all =
      subst (AllDescribed mapping (of_type block_type (device ∷ read))) made (rw this (one, all))

  list_lines-AllDescribed :
      (block_type : String) (mapping : Mapping) (lines : List String) (devices : List DeviceInfo)
      → list_lines machine block_type mapping lines ≡ ok devices
      → (read : List Part) × (read_all_lines lines ≡ ok read)
        × AllDescribed mapping (of_type block_type read) devices
  unfolding list_lines read_all_lines
  list_lines-AllDescribed block_type mapping [] devices h =
      let nothing_listed : [] ≡ devices = ground arith in
      ([], refl, subst (AllDescribed mapping []) nothing_listed tt)
  list_lines-AllDescribed block_type mapping (line ∷ lines) devices h =
      let (device, read_one, h1) = >>=-ok (read_line line) _ devices h in
      let found = take_device machine mapping device in
      let later = list_lines machine block_type mapping lines in
      elim (Bool-cases (has_value "TYPE" block_type device)) [
        | inr other ↦
            let passed = ap (λ b. list_if machine b found later) (sym other) ∙ h1 in
            let (read, read_rest, all) =
              list_lines-AllDescribed block_type mapping lines devices passed in
            (
              device ∷ read,
              read_all_lines-cons line lines device read read_one read_rest,
              skip_other block_type mapping device read devices other all,
            )
        | inl this ↦
            let taken = ap (λ b. list_if machine b found later) (sym this) ∙ h1 in
            let (d, e, h2) = >>=-ok found _ devices taken in
            let (ds, rest, made) = >>=-ok later _ devices h2 in
            let (read, read_rest, all) = list_lines-AllDescribed block_type mapping lines ds rest in
            let one = take_device-Describes mapping device d e in
            let listed : d ∷ ds ≡ devices = ground (arith, made) in
            (
              device ∷ read,
              read_all_lines-cons line lines device read read_one read_rest,
              describe_this block_type mapping device read d ds devices this listed one all,
            )
      ]

  -- What a listing comes to.
  pub record Listed (block_type : String) (devices : List DeviceInfo) : Type 0 where
    pub mapping : Mapping
    pub report : String
    pub read : List Part
    pub settled_first : settled machine ≡ ok tt
    pub links : by_path_mapping machine ≡ ok mapping
    pub reported : machine.report ≡ ok report
    pub all_read : read_all_lines (split_lines report) ≡ ok read
    pub described : AllDescribed mapping (of_type block_type read) devices

  -- Where the listing raises nothing, udev has settled or could not be run, every line of lsblk's report
  -- could be read, and just the lines of the given type are listed, in their order. None of these lacks a
  -- column; each is listed with the file /dev/KNAME, with its MODEL and its SIZE as a number,
  -- and with what the mapping of the links has for its file.
  pub list_all_block_devices-Listed :
      (block_type : String) (devices : List DeviceInfo)
      → list_all_block_devices machine block_type ≡ ok devices
      → Listed block_type devices
  unfolding list_all_block_devices
  list_all_block_devices-Listed block_type devices h =
      let (x, done, h1) = >>=-ok (settled machine) _ devices h in
      let (mapping, links, h2) = >>=-ok (by_path_mapping machine) _ devices h1 in
      let (report, reported, listed) = >>=-ok machine.report _ devices h2 in
      let (read, all_read, described) =
        list_lines-AllDescribed block_type mapping (split_lines report) devices listed in
      record {
        mapping = mapping;
        report = report;
        read = read;
        settled_first = done;
        links = links;
        reported = reported;
        all_read = all_read;
        described = described;
      }
