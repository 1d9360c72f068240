-- ===== src/Hardware/Erase/Metadata.antt =====
-- hardware.py: `erase_devices_metadata`. `destroy` is `disk_utils.destroy_disk_metadata`.
pub mod Wiped
use test_frerfhrebfd.Common.{
  ℕ, String, Bool, true, false, Option, none, some, List, [], ◌∷◌, insert, format, join,
  if◌then◌else◌,
}
use test_frerfhrebfd.Errors.Hierarchy.{ErrorClass}
use test_frerfhrebfd.Errors.Build.{Error, rest_error_init, str}
use test_frerfhrebfd.Exec.{Result, ok, err, Exec, pure, raise, except, ◌>>=◌, ◌>>◌}
use test_frerfhrebfd.Hardware.Types.{Node, BlockDevice}
use test_frerfhrebfd.Hardware.Dispatch.{subscript_uuid}
use test_frerfhrebfd.Hardware.Erase.{is_virtual_media_device}

-- The errors so far, by the name of the device.
abbrev pub EraseErrors : Type 0
EraseErrors = List (String × String)

messages : EraseErrors → List String
messages [] = []
messages ((k, v) ∷ erase_errors) = format ("\"" ∷ k ∷ "\": " ∷ v ∷ []) ∷ messages erase_errors

module _ {W : Type 0} (execute : List ℕ → List String → Exec W (String × String))
    (readlink : Exec W (Option String)) (destroy : String → String → Exec W (Unit {0}))
    (node : Node) where
  abbrev lift : {A : Type 0} → Result A → Exec W A
  lift r s = (r, s)

  -- One device: the errors are as before, or have its error too.
  erase_metadata : String → EraseErrors → Exec W EraseErrors
  unfolding except subscript_uuid ◌>>=◌
  erase_metadata name erase_errors =
      except ErrorClass.process_execution_error
        (do uuid ← lift (subscript_uuid node); destroy name uuid; pure erase_errors)
        (λ e. pure (insert name (str e) erase_errors))

  skip_or_erase : Bool → String → EraseErrors → Exec W EraseErrors
  unfolding erase_metadata
  skip_or_erase true name erase_errors = pure erase_errors
  skip_or_erase false name erase_errors = erase_metadata name erase_errors

  -- The loop over the devices.
  erase_all : List BlockDevice → EraseErrors → Exec W EraseErrors
  unfolding is_virtual_media_device skip_or_erase ◌>>=◌
  erase_all [] erase_errors = pure erase_errors
  erase_all (dev ∷ block_devices) erase_errors = do
    virtual_media ← is_virtual_media_device execute readlink dev.name
    erase_errors' ← skip_or_erase virtual_media dev.name erase_errors
    erase_all block_devices erase_errors'

  raise_errors : EraseErrors → Exec W (Unit {0})
  unfolding messages
  raise_errors [] = pure tt
  raise_errors (e ∷ erase_errors) = raise (
      rest_error_init ErrorClass.block_device_erase_error (
        format (
          "Failed to erase the metadata on the device(s): "
          ∷ join "; " (messages (e ∷ erase_errors))
          ∷ [])))

  -- `erase_devices_metadata`, with what `list_block_devices` gives
  unfoldable pub erase_devices_metadata : Exec W (List BlockDevice) → Exec W (Unit {0})
  unfolding erase_all raise_errors ◌>>=◌
  erase_devices_metadata list_block_devices = do
    block_devices ← list_block_devices
    erase_errors ← erase_all block_devices []
    raise_errors erase_errors
