-- ===== src/Extensions/Standby/Download/Saved.antt =====
-- What a download that succeeds has done.
use test_frerfhrebfd.Common.{
  String, ◌≡◌, refl, List, [], ◌∷◌, ◌++◌, map, inl, inr, ap, sym, ◌∙◌, Among, ==_iff, ◌==◌, str_eq,
  eq_iff,
}
use mathlib.Core.List.{append_assoc, append-nil}
use test_frerfhrebfd.Exec.{Result, ok, err}
use test_frerfhrebfd.Exec.Ensures.{
  Ensures, Ensures-pure, Ensures-raise, Ensures-if, Ensures-except, Ensures-try, Ensures-bind,
  Ensures-imp,
}
use test_frerfhrebfd.Extensions.Standby.Info.{ImageInfo}
use test_frerfhrebfd.Extensions.Standby.Download.{
  Response, Services, accept, failure, download_file, try_urls, image_download, write_chunks,
  verify_image, save,
}

module _ {W : Type 0} (services : Services W) (image_info : ImageInfo) where
  -- A request for the image that was answered with status 200, and left the state `t`.
  abbrev pub Answered : List String → Response → W → Type 0
  Answered urls resp t =
      (url : String) × (u : W) × Among urls url
      × (services.get image_info url u ≡ (ok resp, t))
      × (resp.status_code ≡ 200)

  -- The chunks are written one after the other, and nothing else happens.
  abbrev pub Written : String → List String → W → W → Type 0
  Written location [] s t = s ≡ t
  Written location (chunk ∷ chunks) s t =
      (u : W) × (services.write location chunk s ≡ (ok tt, u)) × Written location chunks u t

  -- All of the image is at the location, and its digest is the checksum of the image information.
  abbrev pub Saved : String → W → Type 0
  Saved location t =
      (resp : Response) × (chunks : List String) × (u v : W) × Answered image_info.urls resp u
      × (services.open_file location u ≡ (ok tt, v))
      × (resp.iter_content ≡ map ok chunks)
      × Written location chunks v t
      × (services.hexdigest chunks ≡ image_info.checksum)

  download_file-Answered :
      (url : String) (s : W)
      → Ensures (download_file services image_info url) (Answered (url ∷ [])) s
  unfolding download_file accept
  download_file-Answered url s = Ensures-bind (services.get image_info url) _ (λ resp u h.
      Ensures-if (resp.status_code == 200)
        (λ b. Ensures-pure (url, s, inl refl, h, (==_iff _ _).0 b)) (λ b. Ensures-raise))

  widen :
      (url : String) (urls : List String) (resp : Response) (t : W)
      → Answered urls resp t
      → Answered (url ∷ urls) resp t
  widen url urls resp t (x, u, m, h, k) = (x, u, inr m, h, k)

  narrow :
      (url : String) (urls : List String) (resp : Response) (t : W)
      → Answered (url ∷ []) resp t
      → Answered (url ∷ urls) resp t
  narrow url urls resp t (x, u, inl m, h, k) = (x, u, inl m, h, k)
  narrow url urls resp t (x, u, inr m, h, k) = absurd m

  try_urls-Answered :
      (urls details : List String) (s : W)
      → Ensures (try_urls services image_info urls details) (Answered urls) s
  unfolding try_urls
  try_urls-Answered [] details s = Ensures-raise
  try_urls-Answered (url ∷ urls) details s =
      Ensures-except _ _ _ (Ensures-imp (download_file-Answered url s) (narrow url urls))
        (λ e u h i. Ensures-bind (failure services image_info url e) _ (λ log_msg v k.
          Ensures-imp (try_urls-Answered urls (details ++ log_msg ∷ []) v) (widen url urls)))

  -- What the loop over the chunks returns: those before, and all of the content.
  Wrote : String → List (Result String) → List String → W → List String → W → Type 0
  Wrote location chunks digested s all t =
      (rest : List String) × (all ≡ digested ++ rest)
      × (chunks ≡ map ok rest)
      × Written location rest s t

  write_chunks-Wrote :
      (location : String) (chunks : List (Result String)) (digested : List String) (s : W)
      → Ensures
          (write_chunks services image_info location chunks digested)
          (Wrote location chunks digested s)
          s
  unfolding write_chunks Wrote
  write_chunks-Wrote location [] digested s =
      Ensures-pure ([], sym (append-nil digested), refl, refl)
  write_chunks-Wrote location (err e ∷ chunks) digested s = Ensures-raise
  write_chunks-Wrote location (ok chunk ∷ chunks) digested s =
      Ensures-bind (services.write location chunk) _ (λ x u h.
        Ensures-imp (write_chunks-Wrote location chunks (digested ++ chunk ∷ []) u)
          (λ all t (rest, e, c, w). (
            chunk ∷ rest,
            e ∙ append_assoc digested (chunk ∷ []) rest,
            ap (λ l. ok chunk ∷ l) c,
            (u, h, w),
          )))

  verify_image-Same :
      (location checksum : String) (s : W)
      → Ensures
          (verify_image image_info location checksum)
          (λ x t. (s ≡ t) × (checksum ≡ image_info.checksum))
          s
  unfolding verify_image
  verify_image-Same location checksum s =
      Ensures-if (str_eq checksum image_info.checksum) (λ b. Ensures-pure (refl, (eq_iff _ _).0 b))
        (λ b. Ensures-raise)

  save-Ensures :
      (msg location : String) (s : W)
      → Ensures (save services image_info msg location) (λ x. Saved location) s
  unfolding save image_download Wrote
  save-Ensures msg location s = Ensures-bind (image_download services image_info) _ (λ resp u a.
      Ensures-bind (services.open_file location) _ (λ x v o. Ensures-bind _ _ (λ digested w h.
        let (rest, e, c, wr) =
          (Ensures-try _ _ (write_chunks-Wrote location resp.iter_content [] v)
              (λ e z k. Ensures-raise)).ensured
            digested w h in
        Ensures-imp (verify_image-Same location (services.hexdigest digested) w) (λ y t (same, sum).
          (
            resp,
            rest,
            u,
            v,
            (try_urls-Answered image_info.urls [] s).ensured resp u a,
            o,
            c,
            rw (sym same) wr,
            rw (sym e) sum,
          )))))

  -- A download that succeeds has got all of the image from one of the URLs, with status 200, and has
  -- written its chunks in their order to the location, which it had opened just before; their digest
  -- is the checksum of the image information. Nothing has happened after the last chunk.
  pub save-Saved :
      (msg location : String) (s t : W)
      → save services image_info msg location s ≡ (ok tt, t)
      → Saved location t
  save-Saved msg location s t h = (save-Ensures msg location s).ensured tt t h
