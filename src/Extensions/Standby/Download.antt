-- ===== src/Extensions/Standby/Download.antt =====
-- extensions/standby.py: `ImageDownload`, `_verify_image` and `_download_image`.
pub mod Saved
use test_frerfhrebfd.Common.{
  ℕ, String, Bool, true, false, Option, none, some, List, [], ◌∷◌, ◌++◌, str_eq, format, show, join,
  ◌==◌, if◌then◌else◌,
}
use test_frerfhrebfd.Errors.Hierarchy.{ErrorClass, is_subclass}
use test_frerfhrebfd.Errors.Build.{Error, Extra, image_download_error, image_checksum_error, str}
use test_frerfhrebfd.Exec.{Result, ok, err, Exec, pure, raise, try_except, except, ◌>>=◌, ◌>>◌}
use test_frerfhrebfd.Extensions.Standby.Info.{ImageInfo}

-- What `requests.get` returns: `iter_content` gives the chunks, the last of which may be an error.
pub record Response : Type 0 where
  pub status_code : ℕ
  pub text : String
  pub iter_content : List (Result String)

-- What the extension calls outside the repository.
pub record Services (W : Type 0) : Type 0 where
  pub get : ImageInfo → String → Exec W Response
  pub elapsed : Exec W String
  pub hexdigest : List String → String
  pub open_file : String → Exec W (Unit {0})
  pub write : String → String → Exec W (Unit {0})

-- `_image_location`
abbrev pub image_location : ImageInfo → String
image_location image_info = format ("/tmp/" ∷ image_info.id ∷ [])

-- The attribute of an ImageDownloadError.
secondary : Extra → String
secondary (Extra.secondary_message msg) = msg
secondary _ = ""

-- `_verify_image`; the arguments of the error in the order of the code
unfoldable pub verify_image : {W : Type 0} → ImageInfo → String → String → Exec W (Unit {0})
verify_image image_info image_location checksum =
    if str_eq checksum image_info.checksum
    then pure tt
    else raise (image_checksum_error image_location image_info.id image_info.checksum checksum)

module _ {W : Type 0} (services : Services W) (image_info : ImageInfo) where
  accept : String → Response → Exec W Response
  accept url resp =
      if resp.status_code == 200
      then pure resp
      else raise (
          image_download_error image_info.id (
            format (
              "Received status code "
              ∷ show resp.status_code
              ∷ " from "
              ∷ url
              ∷ ", expected 200. Response body: "
              ∷ resp.text
              ∷ [])))

  -- `_download_file`
  unfoldable pub download_file : String → Exec W Response
  unfolding accept ◌>>=◌
  download_file url = do resp ← services.get image_info url; accept url resp

  failure : String → Error → Exec W String
  unfolding secondary ◌>>=◌
  failure url e = do
    failtime ← services.elapsed
    pure (
        format
          ("URL: " ∷ url ∷ "; time: " ∷ failtime ∷ " seconds. Error: " ∷ secondary e.extra ∷ []))

  -- The loop of `ImageDownload.__init__`, with the failures so far.
  unfoldable pub try_urls : List String → List String → Exec W Response
  unfolding download_file failure except ◌>>=◌
  try_urls [] details = raise (image_download_error image_info.id (join "\n " details))
  try_urls (url ∷ urls) details =
      except ErrorClass.image_download_error (download_file url)
        (λ e. do log_msg ← failure url e; try_urls urls (details ++ log_msg ∷ []))

  -- `ImageDownload.__init__`
  unfoldable pub image_download : Exec W Response
  unfolding try_urls
  image_download = try_urls image_info.urls []

  -- The loop over the chunks: each is digested and then written. The digested chunks come back.
  unfoldable pub write_chunks : String → List (Result String) → List String → Exec W (List String)
  unfolding ◌>>=◌
  write_chunks location [] digested = pure digested
  write_chunks location (err e ∷ chunks) digested = raise e
  write_chunks location (ok chunk ∷ chunks) digested = do
    services.write location chunk
    write_chunks location chunks (digested ++ chunk ∷ [])

  -- A download to a file or a device, and its verification.
  unfoldable pub save : String → String → Exec W (Unit {0})
  unfolding image_download write_chunks verify_image try_except ◌>>=◌
  save msg location = do
    request ← image_download
    services.open_file location
    digested ← try_except (write_chunks location request.iter_content []) (λ e.
        raise
          (image_download_error image_info.id (format (msg ∷ location ∷ ". Error: " ∷ str e ∷ []))))
    verify_image image_info location (services.hexdigest digested)

  -- `_download_image`
  abbrev pub download_image : Exec W (Unit {0})
  download_image = save "Unable to write image to " (image_location image_info)

  -- `_stream_raw_image_onto_device`
  abbrev pub stream_raw_image_onto_device : String → Exec W (Unit {0})
  stream_raw_image_onto_device device = save "Unable to write image to device " device
