-- ===== src/Inspector/Posted.antt =====
-- What an inspection that succeeds has done.
use test_frerfhrebfd.Common.{
  String, ◌≡◌, Option, none, some, List, [], ◌∷◌, ◌++◌, format, ◌≤◌, ◌<◌, str_eq, ◌⊎◌,
  if◌then◌else◌,
}
use test_frerfhrebfd.Errors.Build.{Error, str}
use test_frerfhrebfd.Exec.{ok, err, Exec}
use test_frerfhrebfd.Exec.Ensures.{Ensures}
use test_frerfhrebfd.Value.{Value, Fields, lookup}
use test_frerfhrebfd.Inspector.{Inspection, Reply, Collector, accepted, with_error}

module _ {W : Type 0} where
  -- The collectors have run one after the other, each in the state that the one before has left; the
  -- exception of one has become a failure, and the next one has run all the same.
  abbrev pub RanAll : List (Collector W) → Inspection W → Inspection W → Type 0
  RanAll [] s t = s ≡ t
  RanAll ((name, collector) ∷ collectors) s t =
      (u : Inspection W) × (((collector s ≡ (ok tt, u)) × RanAll collectors u t)
        ⊎ ((e : Error) × (collector s ≡ (err e, u))
            × RanAll collectors
                (record u {
                  failures =
                      u.failures ++ format ("collector " ∷ name ∷ " failed: " ∷ str e ∷ []) ∷ [];
                })
                t))

module _ {W : Type 0} (post : Fields → Exec W Reply) where
  Answered : Inspection W → Option (Option String) → Inspection W → Type 0
  Answered s resp t =
      (reply : Reply) × (post (with_error s).collected s.world ≡ (ok reply, t.world))
      × (resp ≡ accepted reply)
      × (t.failures ≡ s.failures)

  -- The body of the request: what was collected, with no error.
  abbrev pub IsBody : Fields → Fields → Type 0
  IsBody collected body =
      (k : String)
      → lookup k body ≡ (if str_eq "error" k then some Value.null else lookup k collected)

  abbrev pub AnsweredBy : Reply → Option String → Type 0
  AnsweredBy reply uuid =
      ((400 ≤ reply.status_code) × (uuid ≡ none))
      ⊎ ((reply.status_code < 400) × (uuid ≡ reply.uuid))

  -- The outcome of an inspection without failures.
  abbrev pub Reported : Inspection W → Option String → Inspection W → Type 0
  Reported s uuid t =
      (body : Fields) × (reply : Reply) × (s.failures ≡ [])
      × IsBody s.collected body
      × (post body s.world ≡ (ok reply, t.world))
      × AnsweredBy reply uuid
