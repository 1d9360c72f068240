-- ===== src/Params/Cached.antt =====
-- Where the parameters come from that `get_agent_params` returns.
use test_frerfhrebfd.Common.{
  String, true, false, Option, none, some, List, [], ◌∷◌, str_eq, eq_iff, get, insert, get-insert,
  All, join_path, ◌≡◌, refl, ap, ◌∙◌, ◌⊎◌, inl, inr, arith, Bool-cases,
}
use test_frerfhrebfd.Exec.{ok, pure, ◌>>=◌}
use test_frerfhrebfd.Exec.Ensures.{
  Ensures, Ensures-pure, Ensures-call, Ensures-if, Ensures-bind, Ensures-gets, Ensures-finally,
  Ensures-modify_then,
}
use test_frerfhrebfd.Params.Parse.{Params, read_params, read_options, set_option, words}
use test_frerfhrebfd.Params.RoundTrip.{HaveOwnKeys}
use test_frerfhrebfd.Params.{
  Media, Cache, update_params, is_vmedia, is_empty, read_params_from_file, vmedia_device_file,
  mount_media, umount_media, read_media, remove_mount_point, get_vmedia_params, with_vmedia,
  read_all, in_world, read_and_cache, read_if_empty, get_agent_params,
}

insert-All :
    (k v j : String) (params : Params)
    → str_eq j k ≡ false
    → All (λ p. str_eq j p.0 ≡ false) params
    → All (λ p. str_eq j p.0 ≡ false) (insert k v params)
insert-All k v j [] h a = (h, tt)
insert-All k v j ((i, w) ∷ params) h a = elim (Bool-cases (str_eq i k)) [
  | inl e ↦ rw e a
  | inr e ↦ rw e (a.0, insert-All k v j params h a.1)
]

insert-HaveOwnKeys :
    (k v : String) (params : Params) → HaveOwnKeys params → HaveOwnKeys (insert k v params)
insert-HaveOwnKeys k v [] h = (tt, tt)
insert-HaveOwnKeys k v ((i, w) ∷ params) h = elim (Bool-cases (str_eq i k)) [
  | inl e ↦ rw e h
  | inr e ↦ rw e (insert-All k v i params e h.0, insert-HaveOwnKeys k v params h.1)
]

set_option-HaveOwnKeys :
    (option : String) (o : Option String) (params : Params)
    → HaveOwnKeys params
    → HaveOwnKeys (set_option option o params)
unfolding set_option
set_option-HaveOwnKeys option none params h = h
set_option-HaveOwnKeys option (some v) params h = insert-HaveOwnKeys _ v params h

read_options-HaveOwnKeys :
    (options : List String) (params : Params)
    → HaveOwnKeys params
    → HaveOwnKeys (read_options options params)
unfolding read_options
read_options-HaveOwnKeys [] params h = h
read_options-HaveOwnKeys (o ∷ options) params h =
    read_options-HaveOwnKeys options _ (set_option-HaveOwnKeys o _ params h)

read_params-HaveOwnKeys : (cmdline : String) → HaveOwnKeys (read_params cmdline)
unfolding read_params
read_params-HaveOwnKeys cmdline = read_options-HaveOwnKeys (words cmdline) [] tt

-- The value of the first dictionary that has one.
abbrev pub first_of : Option String → Option String → Option String
first_of none o = o
first_of (some v) o = some v

absent :
    (k : String) (params : Params) → All (λ p. str_eq k p.0 ≡ false) params → get k params ≡ none
absent k [] h = refl
absent k ((i, w) ∷ params) h = ground (arith, eq_iff i k, eq_iff k i, absent k params h.1)

get-update_params :
    (j : String) (params more : Params)
    → HaveOwnKeys more
    → get j (update_params params more) ≡ first_of (get j more) (get j params)
unfolding update_params
get-update_params j params [] h = refl
get-update_params j params ((k, v) ∷ more) h = elim (Bool-cases (str_eq k j)) [
  | inl e ↦
      let same : k ≡ j = (eq_iff k j).0 e in
      let none_later : get j more ≡ none = rw (← same) (absent k more h.0) in
      get-update_params j (insert k v params) more h.1
      ∙ rw (none_later, e) (get-insert k j v params ∙ rw e refl)
  | inr e ↦
      get-update_params j (insert k v params) more h.1
      ∙ rw e (ap (first_of (get j more)) (get-insert k j v params ∙ rw e refl))
]

module _ {W : Type 0} (media : Media W) where
  -- The parameters of the kernel; and where they say so, those of virtual media before them.
  abbrev pub ReadFrom : W → Params → W → Type 0
  ReadFrom s params t =
      (cmdline : String) × (u : W) × (media.read "/proc/cmdline" s ≡ (ok cmdline, u))
      × (((is_vmedia (read_params cmdline) ≡ false) × (params ≡ read_params cmdline) × (u ≡ t))
          ⊎ ((is_vmedia (read_params cmdline) ≡ true)
              × (more : Params) × (get_vmedia_params media u ≡ (ok more, t))
              × ((key : String)
                  → get key params ≡ first_of (get key more) (get key (read_params cmdline)))))

  read_file-Read :
      (path : String) (s : W)
      → Ensures
          (read_params_from_file media path)
          (λ params t.
            (cmdline : String) × (media.read path s ≡ (ok cmdline, t))
            × (params ≡ read_params cmdline))
          s
  unfolding read_params_from_file
  read_file-Read path s =
      Ensures-bind (media.read path) _ (λ cmdline t h. Ensures-pure (cmdline, h, refl))

  read_media-HaveOwnKeys :
      (device mount_point : String) (s : W)
      → Ensures (read_media media device mount_point) (λ params t. HaveOwnKeys params) s
  unfolding read_media
  read_media-HaveOwnKeys device mount_point s =
      Ensures-bind (mount_media media device mount_point) _ (λ x u h.
        Ensures-bind (read_params_from_file media (join_path mount_point "parameters.txt")) _
          (λ params v k.
            let (cmdline, l, m) =
              (read_file-Read (join_path mount_point "parameters.txt") u).ensured params v k in
            Ensures-bind (umount_media media mount_point) _
              (λ y w n. Ensures-pure (rw m (read_params-HaveOwnKeys cmdline)))))

  get_vmedia_params-HaveOwnKeys :
      (s : W) → Ensures (get_vmedia_params media) (λ params t. HaveOwnKeys params) s
  unfolding get_vmedia_params
  get_vmedia_params-HaveOwnKeys s = Ensures-bind (vmedia_device_file media) _ (λ device u h.
      Ensures-bind media.mkdtemp _ (λ mount_point v k.
        Ensures-finally (read_media media device mount_point) (remove_mount_point media mount_point)
          (λ params w l.
            Ensures-call
              (λ a t m. (read_media-HaveOwnKeys device mount_point v).ensured params w l))))

  with_vmedia-ReadFrom :
      (params : Params) (cmdline : String) (s u : W)
      → media.read "/proc/cmdline" s ≡ (ok cmdline, u)
      → params ≡ read_params cmdline
      → Ensures (with_vmedia media params) (ReadFrom s) u
  unfolding with_vmedia
  with_vmedia-ReadFrom params cmdline s u h same =
      Ensures-if (is_vmedia params)
        (λ b. Ensures-bind (get_vmedia_params media) _ (λ more t k. Ensures-pure (
          cmdline,
          u,
          h,
          inr (
            rw (← same) b,
            more,
            k,
            λ key.
                get-update_params key params more
                  ((get_vmedia_params-HaveOwnKeys u).ensured more t k)
                ∙ ap (λ p. first_of (get key more) (get key p)) same,
          ),
        )))
        (λ b. Ensures-pure (cmdline, u, h, inl (rw (← same) b, same, refl)))

  read_all-ReadFrom : (s : W) → Ensures (read_all media) (ReadFrom s) s
  unfolding read_all
  read_all-ReadFrom s = Ensures-bind (read_params_from_file media "/proc/cmdline") _ (λ params u h.
      let (cmdline, k, l) = (read_file-Read "/proc/cmdline" s).ensured params u h in
      with_vmedia-ReadFrom params cmdline s u k l)

  -- Where the parameters come from: the cache, which is left as it is; or the sources, where
  -- nothing is cached.
  abbrev pub Origin : Cache W → Params → Cache W → Type 0
  Origin s params t =
      ((is_empty s.agent_params_cached ≡ false) × (params ≡ s.agent_params_cached) × (t ≡ s))
      ⊎ ((is_empty s.agent_params_cached ≡ true) × ReadFrom s.world params t.world)

  read_and_cache-Origin :
      (s : Cache W)
      → is_empty s.agent_params_cached ≡ true
      → Ensures
          (read_and_cache media)
          (λ params t. Origin s params t × (t.agent_params_cached ≡ params))
          s
  unfolding read_and_cache
  read_and_cache-Origin s b = Ensures-bind (in_world (read_all media)) _ (λ params t h.
      let from = (read_all-ReadFrom s.world).ensured params t.world (ground arith) in
      Ensures-modify_then (λ c. record c { agent_params_cached = params }) (λ y. pure params)
        (Ensures-pure (inr (b, from), refl)))

  get_agent_params-Origin :
      (s : Cache W)
      → Ensures
          (get_agent_params media)
          (λ params t. Origin s params t × (t.agent_params_cached ≡ params))
          s
  unfolding get_agent_params read_if_empty
  get_agent_params-Origin s =
      Ensures-gets (λ c. c.agent_params_cached) (read_if_empty media)
        (Ensures-if (is_empty s.agent_params_cached) (λ b. read_and_cache-Origin s b)
          (λ b. Ensures-pure (inl (b, refl, refl), refl)))

  known_params :
      (params : Params) (t : Cache W)
      → is_empty params ≡ false
      → read_if_empty media params t ≡ (ok params, t)
  unfolding read_if_empty
  known_params params t b = rw b refl

  cached_again :
      (params : Params) (t : Cache W)
      → t.agent_params_cached ≡ params
      → is_empty params ≡ false
      → get_agent_params media t ≡ (ok params, t)
  unfolding get_agent_params ◌>>=◌
  cached_again params t h b = ap (λ p. read_if_empty media p t) h ∙ known_params params t b

  -- If `get_agent_params` returns, it has cached what it returns; and either this was cached before
  -- and nothing is read, or the cache was empty and the parameters are those of the kernel's
  -- command line, where a boot by virtual media lets the value that the media gives for a key come
  -- before that of the command line. Unless the parameters are empty, every further call returns
  -- them and changes nothing.
  pub get_agent_params-Cached :
      (s t : Cache W) (params : Params)
      → get_agent_params media s ≡ (ok params, t)
      → Origin s params t
        × (t.agent_params_cached ≡ params)
        × (is_empty params ≡ false → get_agent_params media t ≡ (ok params, t))
  get_agent_params-Cached s t params h =
      let (origin, cached) = (get_agent_params-Origin s).ensured params t h in
      (origin, cached, cached_again params t cached)
