-- ===== src/Extensions/Standby/Info.antt =====
-- extensions/standby.py: the image information, and `_validate_image_info`.
use test_frerfhrebfd.Common.{
  ℕ, String, Bool, true, false, Option, none, some, List, [], ◌∷◌, ◌≡◌, refl, ◌↔◌, arith, str_eq,
  eq_iff, format, ap, ◌≢◌, if◌then◌else◌,
}
use test_frerfhrebfd.Errors.Hierarchy.{ErrorClass}
use test_frerfhrebfd.Errors.Build.{Error, rest_error_init}
use test_frerfhrebfd.Exec.{Result, ok, err}
use test_frerfhrebfd.Value.{Value, Values, Fields, lookup}

-- `image_info` after its validation: the three fields that are required, and the others that the
-- extension reads. A field that is missing is `none`;
-- the two that may be `None` are there as `some none`.
pub record ImageInfo : Type 0 where
  pub id : String
  pub urls : List String
  pub checksum : String
  pub image_type : Option String
  pub disk_format : Option String
  pub stream_raw_images : Option Bool
  pub node_uuid : Option String
  pub boot_option : Option String
  pub deploy_boot_mode : Option String
  pub disk_label : Option String
  pub root_mb : Option ℕ
  pub swap_mb : Option ℕ
  pub ephemeral_mb : Option ℕ
  pub ephemeral_format : Option (Option String)
  pub preserve_ephemeral : Option Bool
  pub configdrive : Option (Option String)

invalid_params : List String → Error
invalid_params parts = rest_error_init ErrorClass.invalid_command_params_error (format parts)

missing : String → Error
unfolding invalid_params
missing field = invalid_params ("Image is missing '" ∷ field ∷ "' field." ∷ [])

bad_urls : Error
unfolding invalid_params
bad_urls = invalid_params ("Image 'urls' must be a list with at least one element." ∷ [])

bad_checksum : Error
unfolding invalid_params
bad_checksum = invalid_params ("Image 'checksum' must be a non-empty string." ∷ [])

-- `type(urls) == list and urls`
pub is_list : Value → Bool
is_list (Value.list (Values.cons v vs)) = true
is_list _ = false

-- `isinstance(checksum, six.string_types) and checksum`
pub is_text : Value → Bool
is_text (Value.text s) = if str_eq s "" then false else true
is_text _ = false

check_values : Value → Value → Result (Unit {0})
unfolding is_list is_text bad_urls bad_checksum
check_values urls checksum =
    if is_list urls then (if is_text checksum then ok tt else err bad_checksum) else err bad_urls

check_fields : Option Value → Option Value → Option Value → Result (Unit {0})
unfolding missing check_values
check_fields none urls checksum = err (missing "id")
check_fields (some id) none checksum = err (missing "urls")
check_fields (some id) (some urls) none = err (missing "checksum")
check_fields (some id) (some urls) (some checksum) = check_values urls checksum

-- `_validate_image_info`; no dictionary at all counts as an empty one
unfoldable pub validate_image_info : Option Fields → Result (Unit {0})
unfolding check_fields
validate_image_info none = check_fields none none none
validate_image_info (some image_info) =
    check_fields (lookup "id" image_info) (lookup "urls" image_info) (lookup "checksum" image_info)

-- The three fields that an image must have, by what is found under their names.
abbrev AreValid : Option Value → Option Value → Option Value → Type 0
AreValid i u c =
    (id url : Value) × (urls : Values) × (checksum : String) × (i ≡ some id)
    × (u ≡ some (Value.list (Values.cons url urls)))
    × (c ≡ some (Value.text checksum))
    × (checksum ≢ "")

abbrev pub IsComplete : Fields → Type 0
IsComplete image_info =
    AreValid (lookup "id" image_info) (lookup "urls" image_info) (lookup "checksum" image_info)

is_list-cons :
    (v : Value)
    → is_list v ≡ true
    → (url : Value) × (urls : Values) × (v ≡ Value.list (Values.cons url urls))
unfolding is_list
is_list-cons Value.null h = absurd (ground arith)
is_list-cons (Value.flag b) h = absurd (ground arith)
is_list-cons (Value.number n) h = absurd (ground arith)
is_list-cons (Value.text s) h = absurd (ground arith)
is_list-cons (Value.list Values.nil) h = absurd (ground arith)
is_list-cons (Value.list (Values.cons v vs)) h = (v, vs, refl)
is_list-cons (Value.dict fields) h = absurd (ground arith)

is_text-text : (v : Value) → is_text v ≡ true → (s : String) × (v ≡ Value.text s) × (s ≢ "")
unfolding is_text
is_text-text Value.null h = absurd (ground arith)
is_text-text (Value.flag b) h = absurd (ground arith)
is_text-text (Value.number n) h = absurd (ground arith)
is_text-text (Value.text s) h = (s, refl, ground (arith, eq_iff s ""))
is_text-text (Value.list vs) h = absurd (ground arith)
is_text-text (Value.dict fields) h = absurd (ground arith)

text-is_text : (s : String) → s ≢ "" → is_text (Value.text s) ≡ true
unfolding is_text
text-is_text s h = ground (arith, eq_iff s "")

check_values_ok :
    (urls checksum : Value)
    → check_values urls checksum ≡ ok tt
    → (is_list urls ≡ true) × (is_text checksum ≡ true)
unfolding check_values
check_values_ok urls checksum h = ground arith

check_fields_ok :
    (id urls checksum : Option Value)
    → check_fields id urls checksum ≡ ok tt
    → AreValid id urls checksum
unfolding check_fields
check_fields_ok none urls checksum h = absurd (ground arith)
check_fields_ok (some id) none checksum h = absurd (ground arith)
check_fields_ok (some id) (some urls) none h = absurd (ground arith)
check_fields_ok (some id) (some urls) (some checksum) h =
    let (l, t) = check_values_ok urls checksum h in
    let (first, rest, u) = is_list-cons urls l in
    let (s, c, n) = is_text-text checksum t in (id, first, rest, s, refl, ap some u, ap some c, n)

-- A dictionary is accepted if and only if it has the three fields, its URLs are a list that is not
-- empty, and its checksum is a text that is not empty.
pub validate_image_info_iff :
    (image_info : Fields) → (validate_image_info (some image_info) ≡ ok tt) ↔ IsComplete image_info
unfolding validate_image_info check_fields check_values is_list
validate_image_info_iff image_info = (
  check_fields_ok (lookup "id" image_info) (lookup "urls" image_info)
      (lookup "checksum" image_info),
  λ (id, url, urls, checksum, i, u, c, n). rw (i, u, c, text-is_text checksum n) refl,
)
