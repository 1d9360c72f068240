-- ===== src/Errors/Hierarchy.antt =====
-- The class hierarchy of errors.py, with the classes of Python and of the libraries that the
-- agent catches. An attribute is looked up in the class and then in its bases.
pub mod Codes
use test_frerfhrebfd.Common.{
  ℕ, zero, suc, String, ◌≡◌, Bool, true, false, Option, none, some, ◌==◌, if◌then◌else◌,
}

pub data ErrorClass : Type 0 where
  rest_error invalid_content_error not_found command_execution_error : ErrorClass
  invalid_command_error invalid_command_params_error requested_object_not_found_error : ErrorClass
  ironic_api_error heartbeat_error heartbeat_conflict_error : ErrorClass
  lookup_node_error lookup_agent_ip_error : ErrorClass
  image_download_error image_checksum_error image_write_error system_reboot_error : ErrorClass
  block_device_erase_error block_device_error virtual_media_boot_error : ErrorClass
  extension_error unknown_node_error : ErrorClass
  hardware_manager_not_found hardware_manager_method_not_found : ErrorClass
  incompatible_hardware_method_error clean_version_mismatch cleaning_error : ErrorClass
  iscsi_error incompatible_numa_format_error iscsi_command_error : ErrorClass
  device_not_found inspection_error : ErrorClass
  exception value_error key_error index_error os_error process_execution_error : ErrorClass
  undefined_unit_error rtslib_error attribute_error type_error udev_not_found_error : ErrorClass

-- The base that a class of errors.py inherits from; the root of all is `Exception`.
unfoldable pub base : ErrorClass → Option ErrorClass
base rest_error = some exception
base invalid_content_error = some rest_error
base not_found = some rest_error
base command_execution_error = some rest_error
base invalid_command_error = some invalid_content_error
base invalid_command_params_error = some invalid_content_error
base requested_object_not_found_error = some not_found
base ironic_api_error = some rest_error
base heartbeat_error = some ironic_api_error
base heartbeat_conflict_error = some ironic_api_error
base lookup_node_error = some ironic_api_error
base lookup_agent_ip_error = some ironic_api_error
base image_download_error = some rest_error
base image_checksum_error = some rest_error
base image_write_error = some rest_error
base system_reboot_error = some rest_error
base block_device_erase_error = some rest_error
base block_device_error = some rest_error
base virtual_media_boot_error = some rest_error
base extension_error = some rest_error
base unknown_node_error = some rest_error
base hardware_manager_not_found = some rest_error
base hardware_manager_method_not_found = some rest_error
base incompatible_hardware_method_error = some rest_error
base clean_version_mismatch = some rest_error
base cleaning_error = some rest_error
base iscsi_error = some rest_error
base incompatible_numa_format_error = some rest_error
base iscsi_command_error = some iscsi_error
base device_not_found = some not_found
base inspection_error = some exception
base exception = none
base value_error = some exception
base key_error = some exception
base index_error = some exception
base os_error = some exception
base process_execution_error = some exception
base undefined_unit_error = some exception
base rtslib_error = some exception
base attribute_error = some exception
base type_error = some exception
base udev_not_found_error = some exception

-- A number for each class, by which classes are compared.
unfoldable pub tag : ErrorClass → ℕ
tag rest_error = 0
tag invalid_content_error = 1
tag not_found = 2
tag command_execution_error = 3
tag invalid_command_error = 4
tag invalid_command_params_error = 5
tag requested_object_not_found_error = 6
tag ironic_api_error = 7
tag heartbeat_error = 8
tag heartbeat_conflict_error = 9
tag lookup_node_error = 10
tag lookup_agent_ip_error = 11
tag image_download_error = 12
tag image_checksum_error = 13
tag image_write_error = 14
tag system_reboot_error = 15
tag block_device_erase_error = 16
tag block_device_error = 17
tag virtual_media_boot_error = 18
tag extension_error = 19
tag unknown_node_error = 20
tag hardware_manager_not_found = 21
tag hardware_manager_method_not_found = 22
tag incompatible_hardware_method_error = 23
tag clean_version_mismatch = 24
tag cleaning_error = 25
tag iscsi_error = 26
tag incompatible_numa_format_error = 27
tag iscsi_command_error = 28
tag device_not_found = 29
tag inspection_error = 30
tag exception = 31
tag value_error = 32
tag key_error = 33
tag index_error = 34
tag os_error = 35
tag process_execution_error = 36
tag undefined_unit_error = 37
tag rtslib_error = 38
tag attribute_error = 39
tag type_error = 40
tag udev_not_found_error = 41

-- No class has more than three bases above it, so that five rounds reach `Exception` from any.
abbrev depth : ℕ
depth = 5

is_subclass_in : ℕ → ErrorClass → ErrorClass → Bool
is_subclass_in zero c d = false
is_subclass_in (suc n) c d = elim (tag c == tag d) [
  | true ↦ true
  | false ↦ elim (base c) [ none ↦ false | some b ↦ is_subclass_in n b d ]
]

-- `issubclass(c, d)`: what an `except d` clause catches
unfoldable pub is_subclass : ErrorClass → ErrorClass → Bool
unfolding is_subclass_in base tag
is_subclass = is_subclass_in depth

module _ {A : Type 0} (own : ErrorClass → Option A) where
  -- The value of a class attribute, from the class or the nearest base that sets it.
  unfoldable pub inherited : ℕ → ErrorClass → Option A
  inherited zero c = none
  inherited (suc n) c = elim (own c) [
    | some a ↦ some a
    | none ↦ elim (base c) [ none ↦ none | some b ↦ inherited n b ]
  ]

abbrev or_else {ℓ} : {A : Type ℓ} → A → Option A → A
or_else d none = d
or_else d (some a) = a

own_status_code : ErrorClass → Option ℕ
own_status_code rest_error = some 500
own_status_code invalid_content_error = some 400
own_status_code not_found = some 404
own_status_code _ = none

-- `getattr(value, 'status_code', 500)`, of the class
unfoldable pub status_code : ErrorClass → ℕ
unfolding own_status_code inherited base
status_code c = or_else 500 (inherited own_status_code depth c)

own_details : ErrorClass → Option String
own_details rest_error = some "An unexpected error occurred. Please try back later."
own_details not_found = some "The requested URL was not found."
own_details _ = none

unfoldable pub default_details : ErrorClass → String
unfolding own_details inherited base
default_details c = or_else "" (inherited own_details depth c)

own_message : ErrorClass → Option String
own_message rest_error = some "An error occurred"
own_message invalid_content_error = some "Invalid request body"
own_message not_found = some "Not found"
own_message command_execution_error = some "Command execution failed"
own_message invalid_command_error = some "Invalid command"
own_message invalid_command_params_error = some "Invalid command parameters"
own_message ironic_api_error = some "Error in call to ironic-api"
own_message heartbeat_error = some "Error heartbeating to agent API"
own_message heartbeat_conflict_error = some "ConflictError heartbeating to agent API"
own_message lookup_node_error = some "Error getting configuration from Ironic"
own_message lookup_agent_ip_error = some "Error finding IP for Ironic Agent"
own_message image_download_error = some "Error downloading image"
own_message image_checksum_error = some "Error verifying image checksum"
own_message image_write_error = some "Error writing image to device"
own_message system_reboot_error = some "Error rebooting system"
own_message block_device_erase_error = some "Error erasing block device"
own_message block_device_error = some "Block device caused unknown error"
own_message virtual_media_boot_error = some "Configuring agent from virtual media failed"
own_message unknown_node_error = some "Agent is not associated with an Ironic node"
own_message hardware_manager_not_found = some "No valid HardwareManager found"
own_message hardware_manager_method_not_found = some "No HardwareManager found to handle method"
own_message incompatible_hardware_method_error =
    some "HardwareManager method is not compatible with hardware"
own_message clean_version_mismatch =
    some "Clean version mismatch, reload agent with correct version"
own_message cleaning_error = some "Clean step failed"
own_message iscsi_error = some "Error starting iSCSI target"
own_message incompatible_numa_format_error = some "Error in NUMA node data format"
own_message device_not_found =
    some "Error finding the disk or partition device to deploy the image onto"
own_message _ = none

unfoldable pub message : ErrorClass → String
unfolding own_message inherited base
message c = or_else "" (inherited own_message depth c)
