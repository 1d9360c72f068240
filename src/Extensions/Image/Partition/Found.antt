-- ===== src/Extensions/Image/Partition/Found.antt =====
-- Which partition `_get_partition` finds.
use Prim.Native.String.{◌++◌ as ◌+++◌}
use test_frerfhrebfd.Common.{
  String, true, false, Option, none, some, List, [], ◌∷◌, ◌++◌, str_eq, eq_iff, get, All,
  split_lines, ◌≡◌, refl, ◌⊎◌, inl, inr, arith, ap, Bool-cases,
}
use test_frerfhrebfd.Errors.Hierarchy.{ErrorClass}
use test_frerfhrebfd.Exec.{ok, Result-cases}
use test_frerfhrebfd.Exec.Ensures.{
  Ensures, Ensures-raise, Ensures-call, Ensures-except, Ensures-bind,
}
use test_frerfhrebfd.Extensions.Image.{Shell, command}
use test_frerfhrebfd.Extensions.Image.Partition.{
  Part, read_line, has_value, is_wanted, device_path, search_report, lsblk, reread_partitions,
  ask_report, get_partition,
}

-- A partition whose UUID or PARTUUID this is.
abbrev pub Wanted : String → Part → Type 0
Wanted uuid part =
    (get "TYPE" part ≡ some "part")
    × ((get "UUID" part ≡ some uuid) ⊎ (get "PARTUUID" part ≡ some uuid))

-- The first line of the report that describes a wanted partition, and its device.
pub record FirstWanted (uuid : String) (lines : List String) (device_file : String) : Type 0 where
  pub earlier : List String
  pub line : String
  pub later : List String
  pub part : Part
  pub kname : String
  pub split : lines ≡ earlier ++ line ∷ later
  pub unwanted : All (λ l. (p : Part) × (read_line l ≡ ok p) × (Wanted uuid p → ⊥)) earlier
  pub read : read_line line ≡ ok part
  pub wanted : Wanted uuid part
  pub named : get "KNAME" part ≡ some kname
  pub device : device_file ≡ "/dev/" +++ kname

has_value→≡ : (key v : String) (part : Part) → has_value key v part ≡ true → get key part ≡ some v
has_value→≡ key v part h = elim_get (get key part) h
  where
    elim_get :
        (o : Option String) → elim o [ none ↦ false | some u ↦ str_eq u v ] ≡ true → o ≡ some v
    elim_get none k = absurd (ground arith)
    elim_get (some u) k = ap some ((eq_iff u v).0 k)

≡→has_value : (key v : String) (part : Part) → get key part ≡ some v → has_value key v part ≡ true
≡→has_value key v part h = rw (has_value, h) ((eq_iff v v).1 refl)

test_sound : (uuid : String) (part : Part) → is_wanted uuid part ≡ true → Wanted uuid part
test_sound uuid part h = elim (Bool-cases (has_value "TYPE" "part" part)) [
  | inr e ↦ absurd (ground arith)
  | inl e ↦ (
    has_value→≡ "TYPE" "part" part e,
    elim (Bool-cases (has_value "UUID" uuid part)) [
      | inl f ↦ inl (has_value→≡ "UUID" uuid part f)
      | inr f ↦ inr (has_value→≡ "PARTUUID" uuid part (ground arith))
    ],
  )
]

test_complete : (uuid : String) (part : Part) → Wanted uuid part → is_wanted uuid part ≡ true
test_complete uuid part (t, inl h) =
    rw (≡→has_value "TYPE" "part" part t, ≡→has_value "UUID" uuid part h) refl
test_complete uuid part (t, inr h) =
    rw (≡→has_value "TYPE" "part" part t) (elim (Bool-cases (has_value "UUID" uuid part)) [
      | inl f ↦ rw f refl
      | inr f ↦ rw f (≡→has_value "PARTUUID" uuid part h)
    ])

device_path-ok :
    (o : Option String) (p : String)
    → device_path o ≡ ok p
    → (kname : String) × (o ≡ some kname) × (p ≡ "/dev/" +++ kname)
unfolding device_path
device_path-ok none p h = absurd (ground arith)
device_path-ok (some kname) p h = (kname, refl, ground arith)

search_report-FirstWanted :
    (device uuid p : String) (lines : List String)
    → search_report device uuid lines ≡ ok p
    → FirstWanted uuid lines p
unfolding search_report
search_report-FirstWanted device uuid p [] h = absurd (ground arith)
search_report-FirstWanted device uuid p (line ∷ lines) h = elim (Result-cases (read_line line)) [
  | inr (e, x) ↦ absurd (ground arith)
  | inl (part, x) ↦ elim (Bool-cases (is_wanted uuid part)) [
    | inl y ↦
        let (kname, k, d) = device_path-ok (get "KNAME" part) p (ground arith) in
        record {
          earlier = [];
          line = line;
          later = lines;
          part = part;
          kname = kname;
          split = refl;
          unwanted = tt;
          read = x;
          wanted = test_sound uuid part y;
          named = k;
          device = d;
        }
    | inr y ↦
        let f = search_report-FirstWanted device uuid p lines (ground arith) in
        record {
          earlier = line ∷ f.earlier;
          line = f.line;
          later = f.later;
          part = f.part;
          kname = f.kname;
          split = ap (λ l. line ∷ l) f.split;
          unwanted =
              ((part, x, λ w. absurd (ground (arith, test_complete uuid part w))), f.unwanted);
          read = f.read;
          wanted = f.wanted;
          named = f.named;
          device = f.device;
        }
  ]
]

module _ {W : Type 0} (shell : Shell W) where
  abbrev pub Found : String → String → String → W → Type 0
  Found device uuid p t =
      (w : W) × (report : String) × (shell.execute (command (lsblk device)) w ≡ (ok report, t))
      × FirstWanted uuid (split_lines report) p

  get_partition-Ensures :
      (device uuid : String) (s : W)
      → Ensures (get_partition shell device uuid) (Found device uuid) s
  unfolding get_partition ask_report
  get_partition-Ensures device uuid s =
      Ensures-except ErrorClass.process_execution_error (ask_report shell device uuid) _
        (Ensures-bind (reread_partitions shell device) _ (λ x w h.
          Ensures-bind (shell.execute (command (lsblk device))) _ (λ report t k.
            Ensures-call (λ p u l. (
              w,
              report,
              ground arith,
              search_report-FirstWanted device uuid p (split_lines report) (ground arith),
            )))))
        (λ e u h k. Ensures-raise)

  -- `_get_partition` returns only the device of the first line of lsblk's report on the disk that
  -- describes a partition with this UUID or PARTUUID; every line before it has been read and
  -- describes none.
  pub get_partition-Found :
      (device uuid p : String) (s t : W)
      → get_partition shell device uuid s ≡ (ok p, t)
      → Found device uuid p t
  get_partition-Found device uuid p s t h = (get_partition-Ensures device uuid s).ensured p t h
