-- ===== src/IronicApiClient/Accepted.antt =====
-- The version that the client speaks, and what a heartbeat that succeeds has sent.
use test_frerfhrebfd.Common.{
  ℕ, String, ◌≡◌, refl, Option, none, some, ◌⊎◌, inl, inr, arith, ◌==◌, ==_iff,
}
use test_frerfhrebfd.Value.{Fields}
use test_frerfhrebfd.Exec.{Result, ok, err, try_except, recover, continue, pure, ◌>>=◌}
use test_frerfhrebfd.Exec.Ensures.{
  Ensures, Ensures-pure, Ensures-raise, Ensures-call, Ensures-if, Ensures-try, Ensures-bind,
  Ensures-imp,
}
use test_frerfhrebfd.IronicApiClient.{
  Api, Client, HttpResponse, min_ironic_version, in_world, discover, read_version, store_version,
  known_or_discover, get_ironic_api_version, heartbeat_request, conflict, check_heartbeat,
  send_heartbeat, heartbeat,
}

module _ {W : Type 0} (api : Api W) where
  -- What the client knows after it has been asked for the version.
  abbrev pub Negotiated : Client W → ℕ × ℕ → Client W → Type 0
  Negotiated s version t =
      (t.ironic_api_version ≡ some version)
      ⊎ ((version ≡ min_ironic_version) × (t.ironic_api_version ≡ s.ironic_api_version))

  heartbeat_request-Sent :
      (uuid : String) (address : String × ℕ) (version : ℕ × ℕ) (s : Client W)
      → Ensures
          (send_heartbeat api (heartbeat_request api uuid address version))
          (λ response t.
            api.send (heartbeat_request api uuid address version) s.world ≡ (ok response, t.world))
          s
  unfolding send_heartbeat
  heartbeat_request-Sent uuid address version s =
      Ensures-try (in_world api (api.send (heartbeat_request api uuid address version))) _
        (Ensures-call (λ response t h. ground arith)) (λ e u h. Ensures-raise)

  conflict-Raised :
      (r : Result Fields) (P : Unit {0} → Client W → Type 0) (s : Client W)
      → Ensures (conflict api r) P s
  unfolding conflict
  conflict-Raised (ok body) P s = Ensures-raise
  conflict-Raised (err e) P s = Ensures-raise

  check_heartbeat-Accepted :
      (response : HttpResponse) (s : Client W)
      → Ensures (check_heartbeat api response) (λ x t. (response.status_code ≡ 202) × (s ≡ t)) s
  unfolding check_heartbeat
  check_heartbeat-Accepted response s =
      Ensures-if (response.status_code == 409)
        (λ b. conflict-Raised (api.loads response.content) _ s)
        (λ b.
          Ensures-if (response.status_code == 202) (λ c. Ensures-pure ((==_iff _ _).0 c, refl))
            (λ c. Ensures-raise))

  abbrev pub Accepted : String → String × ℕ → Client W → Client W → Type 0
  Accepted uuid address s t =
      (version : ℕ × ℕ) × (u : Client W) × (response : HttpResponse) × (get_ironic_api_version api s
        ≡ (ok version, u))
      × (api.send (heartbeat_request api uuid address version) u.world ≡ (ok response, t.world))
      × (response.status_code ≡ 202)

  same_world : (v t : Client W) → v ≡ t → t.world ≡ v.world
  same_world v t e = ground arith

  heartbeat-Ensures :
      (uuid : String) (address : String × ℕ) (s : Client W)
      → Ensures (heartbeat api uuid address) (λ x. Accepted uuid address s) s
  unfolding heartbeat
  heartbeat-Ensures uuid address s = Ensures-bind (get_ironic_api_version api) _ (λ version u h.
      Ensures-bind (send_heartbeat api (heartbeat_request api uuid address version)) _
        (λ response v k. Ensures-imp (check_heartbeat-Accepted response v) (λ x t (a, same). (
          version,
          u,
          response,
          h,
          rw (same_world v t same)
              ((heartbeat_request-Sent uuid address version u).ensured response v k),
          a,
        ))))

  -- A heartbeat succeeds only if Ironic has answered 202 to the request that is made for the version
  -- that the client has just got, and nothing is called after that.
  pub heartbeat-Accepted :
      (uuid : String) (address : String × ℕ) (s t : Client W)
      → heartbeat api uuid address s ≡ (ok tt, t)
      → Accepted uuid address s t
  heartbeat-Accepted uuid address s t h = (heartbeat-Ensures uuid address s).ensured tt t h

  -- A discovery stores the version that it gives, and stores nothing if it fails.
  Discovered : Client W → Result (ℕ × ℕ) × Client W → Type 0
  Discovered s (ok version, t) = t.ironic_api_version ≡ some version
  Discovered s (err e, t) = t.ironic_api_version ≡ s.ironic_api_version

  read_version-Discovered :
      (r : Result (ℕ × ℕ)) (s u : Client W)
      → u.ironic_api_version ≡ s.ironic_api_version
      → Discovered s (continue r (store_version api) u)
  unfolding Discovered
  read_version-Discovered (ok version) s u e = refl
  read_version-Discovered (err x) s u e = e

  sent-Discovered :
      (r : Result HttpResponse) (s : Client W) (w : W)
      → Discovered s (continue r (read_version api) (record s { world = w }))
  unfolding Discovered read_version ◌>>=◌
  sent-Discovered (ok response) s w = read_version-Discovered _ s (record s { world = w }) refl
  sent-Discovered (err e) s w = refl

  discover-Discovered : (s : Client W) → Discovered s (discover api s)
  unfolding discover ◌>>=◌
  discover-Discovered s = sent-Discovered _ s _

  recovered-Negotiated :
      (r : Result (ℕ × ℕ)) (s u : Client W)
      → Discovered s (r, u)
      → (version : ℕ × ℕ) × (t : Client W) × (recover r (λ e. pure min_ironic_version) u
          ≡ (ok version, t))
        × Negotiated s version t
  unfolding Discovered
  recovered-Negotiated (ok version) s u d = (version, u, refl, inl d)
  recovered-Negotiated (err e) s u d = (min_ironic_version, u, refl, inr (refl, d))

  known_or_discover-Negotiated :
      (o : Option (ℕ × ℕ)) (s : Client W)
      → s.ironic_api_version ≡ o
      → (version : ℕ × ℕ) × (t : Client W) × (known_or_discover api o s ≡ (ok version, t))
        × Negotiated s version t
  unfolding known_or_discover try_except
  known_or_discover-Negotiated (some version) s e = (version, s, refl, inl e)
  known_or_discover-Negotiated none s e =
      recovered-Negotiated (discover api s).0 s (discover api s).1 (discover-Discovered s)

  -- The question for the version always has an answer: a version that the client remembers from
  -- then on, or the least one that is supported, and then the client remembers what it did before.
  pub get_ironic_api_version-Negotiated :
      (s : Client W)
      → (version : ℕ × ℕ) × (t : Client W) × (get_ironic_api_version api s ≡ (ok version, t))
        × Negotiated s version t
  unfolding get_ironic_api_version
  get_ironic_api_version-Negotiated s = known_or_discover-Negotiated s.ironic_api_version s refl
