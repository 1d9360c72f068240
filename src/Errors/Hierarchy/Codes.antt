-- ===== src/Errors/Hierarchy/Codes.antt =====
-- What the hierarchy of errors.py fixes for every class at once.
use test_frerfhrebfd.Common.{◌≡◌, refl, true, if◌then◌else◌}
use test_frerfhrebfd.Errors.Hierarchy.{
  ErrorClass, rest_error, invalid_content_error, not_found, is_subclass, status_code, exception,
  clean_version_mismatch,
}

-- The HTTP status of a class is decided by the two classes that set one: 404 below `NotFound`,
-- 400 below `InvalidContentError`, and 500 otherwise.
pub status_code_lem :
    (c : ErrorClass)
    → status_code c ≡ (
        if is_subclass c not_found
        then 404
        else if is_subclass c invalid_content_error
        then 400
        else 500)
unfolding status_code is_subclass
status_code_lem rest_error = refl
status_code_lem _ = refl

-- Every class is caught by `except Exception`.
pub is_subclass-exception : (c : ErrorClass) → is_subclass c exception ≡ true
unfolding is_subclass
is_subclass-exception rest_error = refl
is_subclass-exception _ = refl

pub mismatch-IsRest :
    (c : ErrorClass) → is_subclass c clean_version_mismatch ≡ true → is_subclass c rest_error ≡ true
unfolding is_subclass
mismatch-IsRest clean_version_mismatch h = refl
mismatch-IsRest _ h = cc
