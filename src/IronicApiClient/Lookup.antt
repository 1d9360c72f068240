-- ===== src/IronicApiClient/Lookup.antt =====
-- When the lookup of the node ends.
use test_frerfhrebfd.Common.{◌≡◌, ◌≢◌, ◌⊎◌, true, Option, none, some, contains, false}
use test_frerfhrebfd.Errors.Hierarchy.{ErrorClass}
use test_frerfhrebfd.Errors.Build.{Error}
use test_frerfhrebfd.Exec.{Result, ok, err}
use test_frerfhrebfd.Value.{Value, Fields, lookup}
use test_frerfhrebfd.IronicApiClient.{Api, HttpResponse, has_text, has_node}

module _ {W : Type 0} (api : Api W) where
  -- The value has "uuid" in it, as Python's `in` has it.
  abbrev pub HasUuid : Value → Type 0
  HasUuid (Value.dict node) = (uuid : Value) × (lookup "uuid" node ≡ some uuid)
  HasUuid (Value.text s) = contains "uuid" s ≡ true
  HasUuid (Value.list vs) = has_text api "uuid" vs ≡ true
  HasUuid _ = ⊥

  abbrev pub NodeHasUuid : Option Value → Type 0
  NodeHasUuid o = (node : Value) × (o ≡ some node) × HasUuid node

  -- The value is of a kind that Python cannot look into.
  abbrev pub IsClosed : Value → Type 0
  IsClosed Value.null = Unit {0}
  IsClosed (Value.flag b) = Unit {0}
  IsClosed (Value.number n) = Unit {0}
  IsClosed _ = ⊥

  -- The content has a node with a UUID, and a configuration.
  abbrev pub Usable : Fields → Type 0
  Usable content = NodeHasUuid (lookup "node" content) × (lookup "config" content ≢ none)

  -- The node of the content is there, and is of such a kind.
  abbrev pub Unreadable : Fields → Error → Type 0
  Unreadable content e =
      (node : Value) × (lookup "node" content ≡ some node)
      × IsClosed node
      × (e.class ≡ ErrorClass.type_error)

  -- What is made of a document: a content with its node that can be used, or nothing where its
  -- node has no UUID or it has neither of the two that tell the timeout of the heartbeats.
  abbrev pub Judged : Fields → Result (Option Fields) → Type 0
  Judged loaded (ok none) =
      (has_node api (lookup "node" loaded) ≡ ok false)
      ⊎ ((lookup "config" loaded ≡ none) × (lookup "heartbeat_timeout" loaded ≡ none))
  Judged loaded (ok (some content)) =
      Usable content × (lookup "node" content ≡ lookup "node" loaded)
  Judged loaded (err e) = Unreadable loaded e

  -- What is made of the answer of the API: nothing of an error, of another status than 200, or of a
  -- text that cannot be read.
  abbrev pub JudgedAnswer : Result HttpResponse → Result (Option Fields) → Type 0
  JudgedAnswer (err e) o = o ≡ ok none
  JudgedAnswer (ok response) o =
      ((response.status_code ≢ 200) × (o ≡ ok none))
      ⊎ ((response.status_code ≡ 200)
          × (((e : Error) × (api.loads response.content ≡ err e) × (o ≡ ok none))
              ⊎ ((loaded : Fields) × (api.loads response.content ≡ ok loaded) × Judged loaded o)))
