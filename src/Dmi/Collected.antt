-- ===== src/Dmi/Collected.antt =====
-- dmi_inspector.py: `collect_dmidecode_info`, on the key 'dmi' of the data and on the failures.
use test_frerfhrebfd.Common.{
  String, Bool, true, ◌||◌, List, [], ◌∷◌, ◌++◌, format, if◌then◌else◌, ◌≡◌, refl, ◌⊎◌, inl, inr,
  arith, Bool-cases,
}
use test_frerfhrebfd.Errors.Hierarchy.{ErrorClass, is_subclass}
use test_frerfhrebfd.Errors.Build.{Error, str}
use test_frerfhrebfd.Exec.{Result, ok, err, Exec, pure, raise, modify, try_except, ◌>>=◌, ◌>>◌}
use test_frerfhrebfd.Dmi.Parse.{Dmi, parse_dmi}

-- `data['dmi']`: absent, the empty dictionary, or what was parsed
pub data DmiData : Type 0 where
  absent empty : DmiData
  parsed : Dmi → DmiData

pub record Inventory : Type 0 where
  pub dmi : DmiData
  pub failures : List String

abbrev put_dmi : DmiData → Inventory → Inventory
put_dmi d s = record s { dmi = d }

abbrev add_failure : Error → Inventory → Inventory
add_failure e s = record s {
  failures = s.failures ++ (format ("failed to run dmidecode: " ∷ str e ∷ []) ∷ []);
}

abbrev pub is_one_of : ErrorClass → ErrorClass → Error → Bool
is_one_of a b e = is_subclass e.class a || is_subclass e.class b

unfoldable pub keep_result : Result Dmi → Exec Inventory (Unit {0})
keep_result (ok d) = modify (put_dmi (parsed d))
keep_result (err e) = raise e

abbrev is_parse_error : Error → Bool
is_parse_error e = is_one_of ErrorClass.value_error ErrorClass.index_error e

-- The `try` statement; its warning is not kept.
unfoldable pub store_parsed : Result Dmi → Exec Inventory (Unit {0})
unfolding keep_result try_except
store_parsed r = try_except (keep_result r) (λ e. if is_parse_error e then pure tt else raise e)

unfoldable pub parse_output : String → Exec Inventory (Unit {0})
unfolding parse_dmi store_parsed ◌>>=◌
parse_output shret = do modify (put_dmi empty); store_parsed (parse_dmi shret)

-- The argument is what the run of dmidecode gives.
unfoldable pub collect_dmidecode_info : Result String → Exec Inventory (Unit {0})
unfolding parse_output
collect_dmidecode_info (ok shret) = parse_output shret
collect_dmidecode_info (err e) =
    if is_one_of ErrorClass.process_execution_error ErrorClass.os_error e
    then modify (add_failure e)
    else raise e

-- What a collection comes to that raises nothing.
abbrev pub Kept : Result String → Inventory → Inventory → Type 0
Kept run s t =
    ((e : Error) × (run ≡ err e) × (t ≡ add_failure e s))
    ⊎ ((output : String) × (run ≡ ok output)
        × (t.failures ≡ s.failures)
        × (((d : Dmi) × (parse_dmi output ≡ ok d) × (t.dmi ≡ parsed d))
            ⊎ ((e : Error) × (parse_dmi output ≡ err e)
                × (is_parse_error e ≡ true)
                × (t.dmi ≡ empty))))

store_parsed-Kept :
    (r : Result Dmi) (s t : Inventory)
    → store_parsed r s ≡ (ok tt, t)
    → (t.failures ≡ s.failures)
      × (((d : Dmi) × (r ≡ ok d) × (t.dmi ≡ parsed d))
          ⊎ ((e : Error) × (r ≡ err e) × (is_parse_error e ≡ true) × (t.dmi ≡ s.dmi)))
unfolding store_parsed
store_parsed-Kept (ok d) s t h = (ground arith, inl (d, refl, ground arith))
store_parsed-Kept (err e) s t h = elim (Bool-cases (is_parse_error e)) [
  | inl b ↦ (ground arith, inr (e, refl, b, ground arith))
  | inr b ↦ absurd (ground arith)
]

-- A collection that raises nothing either could not run dmidecode, and then adds one failure to the
-- failures and leaves the data as it is; or it leaves the failures as they are, and the data holds
-- what the output was parsed to, or an empty dictionary where parsing it raised a ValueError or an
-- IndexError.
pub collect_dmidecode_info-Kept :
    (run : Result String) (s t : Inventory)
    → collect_dmidecode_info run s ≡ (ok tt, t)
    → Kept run s t
unfolding collect_dmidecode_info parse_output
collect_dmidecode_info-Kept (ok output) s t h =
    let (same, kept) = store_parsed-Kept (parse_dmi output) (put_dmi empty s) t h in
    inr (output, refl, same, kept)
collect_dmidecode_info-Kept (err e) s t h =
    elim (Bool-cases (is_one_of ErrorClass.process_execution_error ErrorClass.os_error e)) [
      | inl b ↦ inl (e, refl, ground arith)
      | inr b ↦ absurd (ground arith)
    ]
