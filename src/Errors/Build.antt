-- ===== src/Errors/Build.antt =====
-- The constructors of the classes of errors.py: what `details` each of them builds.
use test_frerfhrebfd.Common.{ℕ, String, [], ◌∷◌, str_eq, if◌then◌else◌, format, show}
use test_frerfhrebfd.Errors.Hierarchy.{
  ErrorClass, status_code, default_details, message, is_subclass,
}

-- What single classes carry beside their `details`.
pub data Extra : Type 0 where
  nothing : Extra
  secondary_message : String → Extra
  process_output : (exit_code : ℕ) (stdout stderr : String) → Extra

pub record Error : Type 0 where
  pub class : ErrorClass
  pub code : ℕ
  pub details : String
  pub extra : Extra

-- `RESTError.__init__`: empty or missing details leave the class attribute.
unfoldable pub rest_error_init : ErrorClass → String → Error
rest_error_init c details = record {
  class = c;
  code = status_code c;
  details = if str_eq details "" then default_details c else details;
  extra = Extra.nothing;
}

-- `str(e)`
unfoldable pub str : Error → String
str e =
    if is_subclass e.class ErrorClass.rest_error
    then format (message e.class ∷ ": " ∷ e.details ∷ [])
    else e.details

-- An exception of Python or of a library, with its text.
unfoldable pub foreign_error : ErrorClass → String → Error
foreign_error c text = record { class = c; code = 500; details = text; extra = Extra.nothing }

-- `ProcessExecutionError`; its text is made by the library that raises it.
unfoldable pub process_execution_error : ℕ → String → String → String → Error
process_execution_error exit_code stdout stderr text = record {
  class = ErrorClass.process_execution_error;
  code = 500;
  details = text;
  extra = Extra.process_output exit_code stdout stderr;
}

unfoldable pub requested_object_not_found_error : String → String → Error
unfolding rest_error_init
requested_object_not_found_error type_descr obj_id =
    rest_error_init ErrorClass.requested_object_not_found_error
      (format (type_descr ∷ " with id " ∷ obj_id ∷ " not found." ∷ []))

unfoldable pub image_download_error : String → String → Error
unfolding rest_error_init
image_download_error image_id msg =
    record (rest_error_init ErrorClass.image_download_error
      (format ("Download of image id " ∷ image_id ∷ " failed: " ∷ msg ∷ []))) {
        extra = Extra.secondary_message msg;
      }

unfoldable pub image_checksum_error : String → String → String → String → Error
unfolding rest_error_init
image_checksum_error image_id image_location checksum calculated_checksum =
    rest_error_init ErrorClass.image_checksum_error (
      format (
        "Image failed to verify against checksum. location: " ∷ image_location ∷ "; image ID: "
        ∷ image_id ∷ "; image checksum: " ∷ checksum ∷ "; verification checksum: "
        ∷ calculated_checksum ∷ []))

unfoldable pub image_write_error : String → ℕ → String → String → Error
unfolding rest_error_init
image_write_error device exit_code stdout stderr = rest_error_init ErrorClass.image_write_error (
    format (
      "Writing image to device "
      ∷ device
      ∷ " failed with exit code "
      ∷ show exit_code
      ∷ ". stdout: "
      ∷ stdout
      ∷ ". stderr: "
      ∷ stderr
      ∷ []))

unfoldable pub system_reboot_error : ℕ → String → String → Error
unfolding rest_error_init
system_reboot_error exit_code stdout stderr = rest_error_init ErrorClass.system_reboot_error (
    format (
      "Reboot script failed with exit code "
      ∷ show exit_code
      ∷ ". stdout: "
      ∷ stdout
      ∷ ". stderr: "
      ∷ stderr
      ∷ "."
      ∷ []))

unfoldable pub hardware_manager_method_not_found : String → Error
unfolding rest_error_init
hardware_manager_method_not_found method =
    rest_error_init ErrorClass.hardware_manager_method_not_found
      (format ("Could not find method: " ∷ method ∷ []))

-- The instance sets its own status before the base constructor copies it.
unfoldable pub clean_version_mismatch : String → String → Error
unfolding rest_error_init
clean_version_mismatch agent_version node_version =
    record (rest_error_init ErrorClass.clean_version_mismatch (
      format
        ("Agent clean version: " ∷ agent_version ∷ ", node clean version: " ∷ node_version ∷ []))) {
          code = 409;
        }

unfoldable pub iscsi_error_init : ErrorClass → String → Error
unfolding rest_error_init
iscsi_error_init c error_msg =
    rest_error_init c (format ("Error starting iSCSI target: " ∷ error_msg ∷ []))

unfoldable pub iscsi_command_error : String → ℕ → String → String → Error
unfolding iscsi_error_init
iscsi_command_error error_msg exit_code stdout stderr =
    iscsi_error_init ErrorClass.iscsi_command_error (
      format (
        error_msg
        ∷ ". Failed with exit code "
        ∷ show exit_code
        ∷ ". stdout: "
        ∷ stdout
        ∷ ". stderr: "
        ∷ stderr
        ∷ []))
