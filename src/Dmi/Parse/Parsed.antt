-- ===== src/Dmi/Parse/Parsed.antt =====
-- dmi_inspector.py: `parse_dmi` against a description without its loop.
use mathlib.Core.Path.{subst}
use test_frerfhrebfd.Common.{
  String, false, Option, none, some, List, [], ◌∷◌, ℤ, str_eq, get, insert, get-insert, eq_iff, ◌≡◌,
  refl, ap, ◌∙◌, ◌⊎◌, inl, inr, arith,
}
use test_frerfhrebfd.Exec.{ok}
use test_frerfhrebfd.Exec.Fallible.{>>=-ok}
use test_frerfhrebfd.Dmi.{Rows, split_blocks}
use test_frerfhrebfd.Dmi.Parse.{
  bios, cpu, memory, devices, Sections, add_blocks, number, sections, MemoryRows, as_fields,
  MemoryField, sum_from, remove, pop, count_devices, put_devices, Dmi, dmi_of, save_data,
  no_sections, parse_dmi,
}
use test_frerfhrebfd.Dmi.Parse.Sorted.{blocks_of, parse_all, last_or, add_blocks-Adds}

-- What the memory holds of the number of devices and of the devices themselves.
abbrev pub Counted : List Rows → MemoryRows → Type 0
Counted memories d =
    (memories ≡ [])
    ⊎ ((n : ℤ) × (sum_from (ℤ.pos 0) memories ≡ ok n)
        × (get "Number Of Devices" d ≡ some (number n)))

abbrev pub Listed : List Rows → MemoryRows → Type 0
Listed devs d = (devs ≡ []) ⊎ (get "devices" d ≡ some (sections devs))

pub record Parsed (blocks : List String) (d : Dmi) : Type 0 where
  pub bios_blocks : List Rows
  pub memory_blocks : List Rows
  pub device_blocks : List Rows
  pub bios_parse : parse_all (blocks_of bios blocks) ≡ ok bios_blocks
  pub cpu_parse : parse_all (blocks_of cpu blocks) ≡ ok d.cpu_info
  pub memory_parse : parse_all (blocks_of memory blocks) ≡ ok memory_blocks
  pub device_parse : parse_all (blocks_of devices blocks) ≡ ok device_blocks
  pub bios_last : d.bios_info ≡ last_or [] bios_blocks
  pub counted : Counted memory_blocks d.memory_info
  pub listed : Listed device_blocks d.memory_info

get-remove : (k j : String) (d : MemoryRows) → str_eq k j ≡ false → get j (remove k d) ≡ get j d
get-remove k j [] h = refl
get-remove k j ((i, w) ∷ d) h =
    ground (arith, eq_iff k j, eq_iff i k, eq_iff i j, get-remove k j d h)

pop-remove :
    (k : String) (d e : MemoryRows) (o : Option MemoryField) → pop k d o ≡ ok e → e ≡ remove k d
unfolding pop
pop-remove k d e none h = absurd (ground arith)
pop-remove k d e (some v) h = ground arith

count_devices-Counted :
    (memories : List Rows) (initial d : MemoryRows)
    → count_devices memories initial ≡ ok d
    → Counted memories d
unfolding count_devices
count_devices-Counted [] initial d h = inl refl
count_devices-Counted (first ∷ rest) initial d h =
    let (n, total, popped) = >>=-ok (sum_from (ℤ.pos 0) (first ∷ rest)) _ d h in
    let counted = insert "Number Of Devices" (number n) (as_fields first) in
    let removed = pop-remove "Handle" counted d (get "Handle" counted) popped in
    inr (
      n,
      total,
      ap (get "Number Of Devices") removed
          ∙ get-remove "Handle" "Number Of Devices" counted refl
          ∙ get-insert "Number Of Devices" "Number Of Devices" (number n) (as_fields first),
    )

put_devices-Counted :
    (memories devs : List Rows) (d : MemoryRows)
    → Counted memories d
    → Counted memories (put_devices devs d)
put_devices-Counted memories [] d c = c
put_devices-Counted memories (r ∷ rs) d (inl c) = inl c
put_devices-Counted memories (r ∷ rs) d (inr (n, total, c)) =
    inr (n, total, get-insert "devices" "Number Of Devices" (sections (r ∷ rs)) d ∙ c)

put_devices-Listed : (devs : List Rows) (d : MemoryRows) → Listed devs (put_devices devs d)
put_devices-Listed [] d = inl refl
put_devices-Listed (r ∷ rs) d = inr (get-insert "devices" "devices" (sections (r ∷ rs)) d)

-- What `_save_data` makes of the sections.
abbrev Saved : Sections → Dmi → Type 0
Saved s d =
    (d.bios_info ≡ s.bios_rows)
    × (d.cpu_info ≡ s.cpu_rows)
    × Counted s.memory_data d.memory_info
    × Listed s.device_data d.memory_info

save_data-Saved : (s : Sections) (d : Dmi) → save_data s ≡ ok d → Saved s d
unfolding save_data
save_data-Saved s d h =
    let (m, count, made) =
      >>=-ok (count_devices s.memory_data (("devices", sections []) ∷ [])) _ d h in
    let counted = count_devices-Counted s.memory_data _ m count in
    let same : dmi_of s m ≡ d = ground arith in
    subst (Saved s) same (
      refl,
      refl,
      put_devices-Counted s.memory_data s.device_data m counted,
      put_devices-Listed s.device_data m,
    )

-- Where the output is parsed, the CPUs are the blocks of their type in their order, the BIOS is the
-- last block of its type, or empty if there is none, the memory has as its number of devices the sum over
-- all blocks of its type if there are any, and its devices are the blocks of theirs in their order,
-- if there are any.
pub parse_dmi-Parsed :
    (output : String) (d : Dmi) → parse_dmi output ≡ ok d → Parsed (split_blocks output) d
unfolding parse_dmi
parse_dmi-Parsed output d h =
    let (s, loop, saved) = >>=-ok (add_blocks (split_blocks output) no_sections) save_data d h in
    let a = add_blocks-Adds (split_blocks output) no_sections s loop in
    let (bios_kept, cpu_kept, counted, listed) = save_data-Saved s d saved in
    record {
      bios_blocks = a.b_rows;
      memory_blocks = a.m_rows;
      device_blocks = a.d_rows;
      bios_parse = a.b_parse;
      cpu_parse = rw (cpu_kept ∙ a.c_end) a.c_parse;
      memory_parse = a.m_parse;
      device_parse = a.d_parse;
      bios_last = bios_kept ∙ a.b_last;
      counted = subst (λ r. Counted r d.memory_info) a.m_end counted;
      listed = subst (λ r. Listed r d.memory_info) a.d_end listed;
    }
