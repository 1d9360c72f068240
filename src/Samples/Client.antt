-- ===== src/Samples/Client.antt =====
-- ironic_api_client.py against an API that speaks version 1.36. The world is the number of requests.
use test_frerfhrebfd.Common.{
  ℕ, suc, String, ◌≡◌, refl, Option, none, some, List, [], ◌∷◌, format, show, str_eq, if◌then◌else◌,
}
use test_frerfhrebfd.Exec.{ok}
use test_frerfhrebfd.Value.{Value, Fields}
use test_frerfhrebfd.IronicApiClient.{Api, Client, heartbeat, do_lookup}
use test_frerfhrebfd.IronicApiClient.Accepted.{Accepted, heartbeat-Accepted}

abbrev versions : Fields
versions =
    Fields.field "default_version"
      (Value.dict (Fields.field "version" (Value.text "1.36") Fields.end)) Fields.end

abbrev api : Api ℕ
api = record {
  api_url = "http://ironic";
  send = λ request w. (
    ok (record { status_code = if str_eq request.method "POST" then 202 else 200; content = "" }),
    suc w,
  );
  loads = λ content. ok versions;
  wrap_ipv6 = λ host. host;
  release_string = "3.0";
}

abbrev fresh : Client ℕ
fresh = record { ironic_api_version = none; world = 0 }

abbrev beaten : Client ℕ
beaten = record { ironic_api_version = some (1, 36); world = 2 }

beats : heartbeat api "1be2" ("192.0.2.1", 9999) fresh ≡ (ok tt, beaten)
unfolding heartbeat format show
beats = refl

heartbeat-Accepted_example : Accepted api "1be2" ("192.0.2.1", 9999) fresh beaten
heartbeat-Accepted_example = heartbeat-Accepted api "1be2" ("192.0.2.1", 9999) fresh beaten beats

-- An old API: the timeout stands beside the node.
abbrev found : Fields
found =
    Fields.field "node" (Value.dict (Fields.field "uuid" (Value.text "1be2") Fields.end))
      (Fields.field "heartbeat_timeout" (Value.number 300) Fields.end)

abbrev old_api : Api ℕ
old_api = record api { loads = λ content. ok found }

abbrev interfaces : List (Option String)
interfaces = some "52:54:00:cf:2d:31" ∷ none ∷ []

looked_up : do_lookup old_api interfaces none fresh ≡ (
  ok (
      some (
        Fields.field "config"
          (Value.dict (Fields.field "heartbeat_timeout" (Value.number 300) Fields.end))
          (Fields.field "node"
            (Value.dict (Fields.field "uuid" (Value.text "1be2") Fields.end))
            Fields.end))),
  record { ironic_api_version = none; world = 1 },
)
unfolding do_lookup
looked_up = refl
