-- ===== src/Extensions/Standby/Prepare/Ready.antt =====
-- What has happened to the disk when `cache_image` or `prepare_image` reports success.
use test_frerfhrebfd.Common.{
  String, ◌≡◌, refl, Bool, true, false, Option, none, some, ◌⊎◌, inl, inr, arith, sym, ◌∙◌, not,
  ◌||◌,
}
use test_frerfhrebfd.Exec.{ok, Exec}
use test_frerfhrebfd.Exec.Ensures.{
  Ensures, Ensures-pure, Ensures-call, Ensures-if, Ensures-bind, Ensures-gets, Ensures-imp,
}
use test_frerfhrebfd.Extensions.Standby.Info.{ImageInfo}
use test_frerfhrebfd.Extensions.Standby.Download.{
  Services, image_location, download_image, stream_raw_image_onto_device,
}
use test_frerfhrebfd.Extensions.Standby.Download.Saved.{Saved, save-Saved}
use test_frerfhrebfd.Extensions.Standby.Prepare.{
  Uuids, Disks, Standby, is_partition, in_world, write_image, cache_and_write_image, message_format,
  report, is_cached, is_streamed, ensure_cached, cache_unless, provide_unless, cache_image,
  provide_image, write_configdrive, prepare_image,
}

module _ {W : Type 0} where
  -- The fields of the extension other than the world.
  abbrev pub IsSame : Standby W → Standby W → Type 0
  IsSame s t = (t.cached_image_id ≡ s.cached_image_id) × (t.partition_uuids ≡ s.partition_uuids)

  in_world-Ran :
      {A : Type 0} (m : Exec W A) (s : Standby W)
      → Ensures (in_world m) (λ a t. (m s.world ≡ (ok a, t.world)) × IsSame s t) s
  in_world-Ran m s = Ensures-call (λ a t h. (ground arith, (ground arith, ground arith)))

  IsSame-trans : (s t u : Standby W) → IsSame s t → IsSame t u → IsSame s u
  IsSame-trans s t u (a, b) (c, d) = (c ∙ a, d ∙ b)

module _ {W : Type 0} (services : Services W) (disks : Disks W) (image_info : ImageInfo) where
  -- The image has been downloaded and verified, and then written to the device without error; the
  -- extension remembers its id and its partitions.
  abbrev pub Stored : String → Standby W → Type 0
  Stored device t =
      (v w : W) × (uuids : Uuids) × Saved services image_info (image_location image_info) v
      × (write_image services disks image_info device v ≡ (ok uuids, w))
      × (t.partition_uuids ≡ some uuids)
      × (t.cached_image_id ≡ some image_info.id)

  Stored-IsSame :
      (device : String) (s t : Standby W) → IsSame s t → Stored device s → Stored device t
  Stored-IsSame device s t (a, b) (v, w, uuids, saved, ran, p, c) =
      (v, w, uuids, saved, ran, b ∙ p, a ∙ c)

  cache_and_write_image-Stored :
      (device : String) (s : Standby W)
      → Ensures (cache_and_write_image services disks image_info device) (λ x. Stored device) s
  unfolding cache_and_write_image
  cache_and_write_image-Stored device s =
      Ensures-bind (in_world (download_image services image_info)) _ (λ x u h.
        Ensures-bind (in_world (write_image services disks image_info device)) _ (λ uuids v k.
          let (saved, i) = (in_world-Ran (download_image services image_info) s).ensured x u h in
          let (ran, j) =
            (in_world-Ran (write_image services disks image_info device) u).ensured uuids v k in
          Ensures-call (λ a t e. (
            u.world,
            v.world,
            uuids,
            save-Saved services image_info _ (image_location image_info) s.world u.world saved,
            ran,
            ground arith,
            ground arith,
          ))))

  -- Where the image is after `cache_image`.
  abbrev pub CacheReady : Bool → Standby W → Standby W → Type 0
  CacheReady force s t =
      ((is_cached services disks image_info s ≡ true) × (force ≡ false) × IsSame s t)
      ⊎ ((device : String) × (u : W) × (disks.get_os_install_device s.world ≡ (ok device, u))
          × Stored device t)

  -- Where it is after `prepare_image`: cached before; streamed, whereupon the extension remembers
  -- what it did before; or stored.
  abbrev pub Provided : String → Standby W → Standby W → Type 0
  Provided device s t =
      ((is_cached services disks image_info s ≡ true) × IsSame s t)
      ⊎ (((is_streamed services disks image_info ≡ true)
            × IsSame s t
            × ((v : W) × Saved services image_info device v))
          ⊎ Stored device t)

  Provided-IsSame :
      (device : String) (s t u : Standby W) → IsSame t u → Provided device s t → Provided device s u
  Provided-IsSame device s t u i (inl (c, j)) = inl (c, IsSame-trans s t u j i)
  Provided-IsSame device s t u i (inr (inl (c, j, v))) = inr (inl (c, IsSame-trans s t u j i, v))
  Provided-IsSame device s t u i (inr (inr x)) = inr (inr (Stored-IsSame device t u i x))

  -- The extension's fields decide whether an image is cached.
  Provided-from :
      (device : String) (s r t : Standby W) → IsSame s r → Provided device r t → Provided device s t
  Provided-from device s r t i (inl (c, j)) = inl (rw (sym i.0) c, IsSame-trans s r t i j)
  Provided-from device s r t i (inr (inl (c, j, v))) = inr (inl (c, IsSame-trans s r t i j, v))
  Provided-from device s r t i (inr (inr x)) = inr (inr x)

  IsSame-refl : (s : Standby W) → IsSame s s
  IsSame-refl s = (refl, refl)

  provide_image-Provided :
      (device : String) (s : Standby W)
      → Ensures (provide_image services disks image_info device) (λ x. Provided device s) s
  unfolding provide_image provide_unless
  provide_image-Provided device s =
      Ensures-gets (is_cached services disks image_info)
        (provide_unless services disks image_info device)
        (Ensures-if (is_cached services disks image_info s)
          (λ b. Ensures-pure (inl (b, IsSame-refl s)))
          (λ b.
            Ensures-if (is_streamed services disks image_info)
              (λ c.
                Ensures-imp
                  (in_world-Ran (stream_raw_image_onto_device services image_info device) s)
                  (λ x t (h, i). inr (
                    inl (
                      c,
                      i,
                      (t.world, save-Saved services image_info _ device s.world t.world h),
                    ))))
              (λ c. Ensures-imp (cache_and_write_image-Stored device s) (λ x t h. inr (inr h)))))

  report-IsSame :
      (msg device : String) (s : Standby W)
      → Ensures (report services disks image_info msg device) (λ x. IsSame s) s
  unfolding report
  report-IsSame msg device s = Ensures-call (λ a t h.
      ((in_world-Ran (message_format services disks image_info msg device s.partition_uuids)
          s).ensured
        a t h).1)

  write_configdrive-IsSame :
      (configdrive : Option String) (device : String) (s : Standby W)
      → Ensures (write_configdrive services disks image_info configdrive device) (λ x. IsSame s) s
  unfolding write_configdrive
  write_configdrive-IsSame none device s = Ensures-pure (IsSame-refl s)
  write_configdrive-IsSame (some configdrive) device s =
      Ensures-if (is_partition image_info) (λ b. Ensures-pure (IsSame-refl s))
        (λ b. Ensures-imp (in_world-Ran _ s) (λ x t h. h.1))

  prepare_image-Ensures :
      (configdrive : Option String) (s : Standby W)
      → Ensures
          (prepare_image services disks image_info configdrive)
          (λ msg t.
            (device : String) × (u : W) × (disks.get_os_install_device s.world ≡ (ok device, u))
            × Provided device s t)
          s
  unfolding prepare_image
  prepare_image-Ensures configdrive s =
      Ensures-bind (in_world disks.get_os_install_device) _ (λ device u h.
        let (found, i) = (in_world-Ran disks.get_os_install_device s).ensured device u h in
        Ensures-bind (provide_image services disks image_info device) _ (λ x v k.
          let p = (provide_image-Provided device u).ensured x v k in
          Ensures-bind (write_configdrive services disks image_info configdrive device) _ (λ y w l.
            let j = (write_configdrive-IsSame configdrive device v).ensured y w l in
            Ensures-imp (report-IsSame _ device w) (λ msg t m. (
              device,
              u.world,
              found,
              Provided-from device s u t i
                  (Provided-IsSame device u w t m (Provided-IsSame device u v w j p)),
            )))))

  -- `prepare_image` succeeds only if the image is cached already, and then the extension's fields
  -- are as before; or if it has been downloaded whole to the install device itself, which is done
  -- for a raw image that is streamed and leaves the fields as before too; or if it has been
  -- downloaded whole to a file and written to the install device, and is then remembered.
  pub prepare_image-Provided :
      (configdrive : Option String) (s t : Standby W) (msg : String)
      → prepare_image services disks image_info configdrive s ≡ (ok msg, t)
      → (device : String) × (u : W) × (disks.get_os_install_device s.world ≡ (ok device, u))
        × Provided device s t
  prepare_image-Provided configdrive s t msg h =
      (prepare_image-Ensures configdrive s).ensured msg t h

  CacheReady-IsSame :
      (force : Bool) (s t u : Standby W) → IsSame t u → CacheReady force s t → CacheReady force s u
  CacheReady-IsSame force s t u i (inl (c, f, j)) = inl (c, f, IsSame-trans s t u j i)
  CacheReady-IsSame force s t u i (inr (d, w, f, x)) = inr (d, w, f, Stored-IsSame d t u i x)

  neither : (b c : Bool) → (not b || c) ≡ false → (b ≡ true) × (c ≡ false)
  neither b c h = ground arith

  ensure_cached-CacheReady :
      (force : Bool) (device : String) (s u : Standby W)
      → disks.get_os_install_device s.world ≡ (ok device, u.world)
      → IsSame s u
      → Ensures (ensure_cached services disks image_info force device) (λ msg. CacheReady force s) u
  unfolding ensure_cached cache_unless
  ensure_cached-CacheReady force device s u found i =
      Ensures-gets (is_cached services disks image_info)
        (cache_unless services disks image_info force device)
        (Ensures-if (not (is_cached services disks image_info u) || force)
          (λ b. Ensures-bind (cache_and_write_image services disks image_info device) _ (λ x w l.
            Ensures-pure (
              inr (device, u.world, found, (cache_and_write_image-Stored device u).ensured x w l))))
          (λ b.
            let (c, f) = neither (is_cached services disks image_info u) force b in
            Ensures-pure (inl (rw (sym i.0) c, f, i))))

  cache_image-Ensures :
      (force : Bool) (s : Standby W)
      → Ensures (cache_image services disks image_info force) (λ msg. CacheReady force s) s
  unfolding cache_image
  cache_image-Ensures force s = Ensures-bind (in_world disks.get_os_install_device) _ (λ device u h.
      let (found, i) = (in_world-Ran disks.get_os_install_device s).ensured device u h in
      Ensures-bind (ensure_cached services disks image_info force device) _ (λ msg v k.
        let ready = (ensure_cached-CacheReady force device s u found i).ensured msg v k in
        Ensures-imp (report-IsSame msg device v)
          (λ text t m. CacheReady-IsSame force s v t m ready)))

  -- `cache_image` succeeds only if the image is cached already and is not forced, and then the
  -- extension's fields are as before; or if it has been downloaded whole to a file and written to
  -- the install device, and is then remembered.
  pub cache_image-CacheReady :
      (force : Bool) (s t : Standby W) (msg : String)
      → cache_image services disks image_info force s ≡ (ok msg, t)
      → CacheReady force s t
  cache_image-CacheReady force s t msg h = (cache_image-Ensures force s).ensured msg t h
