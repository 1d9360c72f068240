-- ===== src/Params.antt =====
-- utils.py: the parameters of the agent, from the kernel's command line and from virtual media, and
-- their cache. `Media` holds the calls that read files, mount and remove.
pub mod Parse
pub mod RoundTrip
pub mod Cached
use Prim.Native.Char.{Char, code}
use Prim.Native.Nat.{◌-◌}
use test_frerfhrebfd.Common.{
  ℕ, zero, suc, String, Bool, true, false, Option, none, some, List, [], ◌∷◌, ◌&&◌, leb, str_eq,
  get, insert, format, contains, join_path, if◌then◌else◌,
}
use test_frerfhrebfd.Errors.Hierarchy.{ErrorClass}
use test_frerfhrebfd.Errors.Build.{Error, rest_error_init, str}
use test_frerfhrebfd.Exec.{
  Result, ok, err, Exec, pure, raise, gets, modify, except, try_except, try_finally, ◌>>=◌, ◌>>◌,
}
use test_frerfhrebfd.Params.Parse.{Params, read_params, slash_parts, fifth}

pub record Media (W : Type 0) : Type 0 where
  pub read : String → Exec W String
  pub exists : String → W → Bool
  -- `glob.glob("/sys/class/block/*/device/model")`
  pub device_models : W → List String
  pub mkdtemp : Exec W String
  pub execute : List String → Exec W String
  pub rmtree : String → Exec W (Unit {0})

-- The module's `AGENT_PARAMS_CACHED`, and what lies outside.
pub record Cache (W : Type 0) : Type 0 where
  pub agent_params_cached : Params
  pub world : W

letter_at : ℕ → String → Char → Char
letter_at n String.[] other = other
letter_at zero (String.◌∷◌ c s) other = c
letter_at (suc n) (String.◌∷◌ c s) other = letter_at n s other

-- The lower case of a letter from A to Z.
lower_char : Char → Char
unfolding letter_at
lower_char c =
    if leb 65 (code c) && leb (code c) 90
    then letter_at (code c - 65) "abcdefghijklmnopqrstuvwxyz" c
    else c

lower : String → String
unfolding lower_char
lower String.[] = ""
lower (String.◌∷◌ c s) = String.◌∷◌ (lower_char c) (lower s)

-- `params.update(more)`
unfoldable pub update_params : Params → Params → Params
update_params params [] = params
update_params params ((k, v) ∷ more) = update_params (insert k v params) more

mount_failed : String → Error → Error
mount_failed device e =
    rest_error_init ErrorClass.virtual_media_boot_error
      (format ("Unable to mount virtual media device " ∷ device ∷ ": " ∷ str e ∷ []))

unfoldable pub is_vmedia : Params → Bool
is_vmedia params = elim (get "boot_method" params) [ none ↦ false | some m ↦ str_eq m "vmedia" ]

abbrev pub is_empty : Params → Bool
is_empty [] = true
is_empty (p ∷ params) = false

module _ {W : Type 0} where
  abbrev pub in_world : {A : Type 0} → Exec W A → Exec (Cache W) A
  in_world m s = let (r, w) = m s.world in (r, record s { world = w })

module _ {W : Type 0} (media : Media W) where
  -- `_read_params_from_file`
  unfoldable pub read_params_from_file : String → Exec W Params
  unfolding read_params ◌>>=◌
  read_params_from_file filepath = do cmdline ← media.read filepath; pure (read_params cmdline)

  -- Whether the model is that of virtual media; what cannot be read is not.
  unfoldable pub try_model : String → Exec W (Option String)
  unfolding lower fifth slash_parts try_except ◌>>=◌
  try_model model_file =
      try_except
        (do
          model ← media.read model_file
          (if contains "virtual media" (lower model)
              then (λ w. (fifth (slash_parts model_file), w))
              else pure none))
        (λ e. pure none)

  unfoldable pub first_model : List String → Exec W (Option String)
  unfolding try_model ◌>>=◌
  first_model [] = pure none
  first_model (model_file ∷ model_files) =
      let rest = first_model model_files in
      (do
        found ← try_model model_file
        elim found [ some device ↦ pure (some device) | none ↦ rest ])

  -- `_get_vmedia_device`
  unfoldable pub get_vmedia_device : Exec W (Option String)
  unfolding first_model
  get_vmedia_device w = first_model (media.device_models w) w

  device_or_error : Option String → Exec W String
  device_or_error none =
      raise
        (rest_error_init ErrorClass.virtual_media_boot_error "Unable to find virtual media device")
  device_or_error (some device) =
      if str_eq device ""
      then raise (
          rest_error_init ErrorClass.virtual_media_boot_error "Unable to find virtual media device")
      else pure (join_path "/dev" device)

  unfoldable pub search_device : Exec W String
  unfolding get_vmedia_device device_or_error ◌>>=◌
  search_device = do device ← get_vmedia_device; device_or_error device

  -- The file of the device: by its label, and for older servers by its model.
  unfoldable pub vmedia_device_file : Exec W String
  unfolding search_device
  vmedia_device_file w =
      if media.exists "/dev/disk/by-label/ir-vfd-dev" w
      then (ok "/dev/disk/by-label/ir-vfd-dev", w)
      else if media.exists "/dev/disk/by-label/IR-VFD-DEV" w
      then (ok "/dev/disk/by-label/IR-VFD-DEV", w)
      else search_device w

  unfoldable pub mount_media : String → String → Exec W (Unit {0})
  unfolding mount_failed except ◌>>=◌
  mount_media device mount_point =
      except ErrorClass.process_execution_error
        (do media.execute ("mount" ∷ device ∷ mount_point ∷ []); pure tt)
        (λ e. raise (mount_failed device e))

  unfoldable pub umount_media : String → Exec W (Unit {0})
  unfolding except ◌>>=◌
  umount_media mount_point =
      except ErrorClass.process_execution_error
        (do media.execute ("umount" ∷ mount_point ∷ []); pure tt) (λ e. pure tt)

  unfoldable pub read_media : String → String → Exec W Params
  unfolding mount_media umount_media read_params_from_file ◌>>=◌
  read_media device mount_point = do
    mount_media device mount_point
    params ← read_params_from_file (join_path mount_point "parameters.txt")
    umount_media mount_point
    pure params

  unfoldable pub remove_mount_point : String → Exec W (Unit {0})
  unfolding try_except
  remove_mount_point mount_point = try_except (media.rmtree mount_point) (λ e. pure tt)

  -- `_get_vmedia_params`
  unfoldable pub get_vmedia_params : Exec W Params
  unfolding vmedia_device_file read_media remove_mount_point try_finally ◌>>=◌
  get_vmedia_params = do
    device ← vmedia_device_file
    mount_point ← media.mkdtemp
    try_finally (read_media device mount_point) (remove_mount_point mount_point)

  unfoldable pub with_vmedia : Params → Exec W Params
  unfolding get_vmedia_params update_params is_vmedia ◌>>=◌
  with_vmedia params =
      if is_vmedia params
      then (do vmedia_params ← get_vmedia_params; pure (update_params params vmedia_params))
      else pure params

  unfoldable pub read_all : Exec W Params
  unfolding read_params_from_file with_vmedia ◌>>=◌
  read_all = do params ← read_params_from_file "/proc/cmdline"; with_vmedia params

  unfoldable pub read_and_cache : Exec (Cache W) Params
  unfolding read_all ◌>>=◌
  read_and_cache = do
    params ← in_world read_all
    modify (λ s. record s { agent_params_cached = params })
    pure params

  unfoldable pub read_if_empty : Params → Exec (Cache W) Params
  unfolding read_and_cache
  read_if_empty params = if is_empty params then read_and_cache else pure params

  -- `get_agent_params`; the copy that it returns is the value itself here
  unfoldable pub get_agent_params : Exec (Cache W) Params
  unfolding read_if_empty ◌>>=◌
  get_agent_params = do params ← gets (λ s. s.agent_params_cached); read_if_empty params
