-- ===== src/IronicApiClient.antt =====
-- ironic_python_agent/ironic_api_client.py. `send` is `session.request` with the TLS options of the
-- configuration; `loads` reads a JSON object; `wrap_ipv6` puts an IPv6 address into brackets.
pub mod Accepted
pub mod Lookup
use Prim.Native.Char.{Char}
use test_frerfhrebfd.Common.{
  ℕ, String, Bool, true, false, Option, none, some, List, [], ◌∷◌, ◌≡◌, ◌+◌, ◌*◌, ◌&&◌, ◌||◌, not,
  insert, str_eq, contains, format, show, join, ltb, ◌==◌, leb, if◌then◌else◌,
}
use test_frerfhrebfd.Errors.Hierarchy.{ErrorClass}
use test_frerfhrebfd.Errors.Build.{Error, rest_error_init, foreign_error, str}
use test_frerfhrebfd.Exec.{Result, ok, err, Exec, pure, raise, try_except, ◌>>=◌, ◌>>◌}
use test_frerfhrebfd.Value.{Value, Values, Fields, lookup}

pub record Request : Type 0 where
  pub method : String
  pub url : String
  pub headers : List (String × String)
  pub body : Option Fields
  pub params : List (String × String)

pub record HttpResponse : Type 0 where
  pub status_code : ℕ
  pub content : String

-- What the client calls outside.
pub record Api (W : Type 0) : Type 0 where
  pub api_url : String
  pub send : Request → Exec W HttpResponse
  pub loads : String → Result Fields
  pub wrap_ipv6 : String → String
  pub release_string : String

-- `APIClient`: the version that has been discovered
pub record Client (W : Type 0) : Type 0 where
  pub ironic_api_version : Option (ℕ × ℕ)
  pub world : W

abbrev pub min_ironic_version : ℕ × ℕ
min_ironic_version = (1, 22)

abbrev pub agent_version_ironic_version : ℕ × ℕ
agent_version_ironic_version = (1, 36)

-- `a >= b` of pairs
pub is_at_least : ℕ × ℕ → ℕ × ℕ → Bool
is_at_least (a, b) (c, d) = ltb c a || (a == c && leb d b)

-- `_get_ironic_api_version_header`
pub version_header : ℕ × ℕ → List (String × String)
version_header (major, minor) =
    ("X-OpenStack-Ironic-API-Version", format (show major ∷ "." ∷ show minor ∷ [])) ∷ []

abbrev or_fail : {A : Type 0} → Option A → Result A
or_fail none = err (foreign_error ErrorClass.key_error "")
or_fail (some a) = ok a

-- `value[key]`
subscript : String → Value → Result Value
subscript key (Value.dict fields) = or_fail (lookup key fields)
subscript key _ = err (foreign_error ErrorClass.exception "not subscriptable")

abbrev cons_char : Char → List String → List String
cons_char c [] = String.◌∷◌ c "" ∷ []
cons_char c (part ∷ parts) = String.◌∷◌ c part ∷ parts

-- `version.split('.')`
pub split_dots : String → List String
split_dots String.[] = "" ∷ []
split_dots (String.◌∷◌ c s) =
    let rest = split_dots s in if str_eq (String.◌∷◌ c "") "." then "" ∷ rest else cons_char c rest

digits : List String
digits = "0" ∷ "1" ∷ "2" ∷ "3" ∷ "4" ∷ "5" ∷ "6" ∷ "7" ∷ "8" ∷ "9" ∷ []

position : String → List String → ℕ → Option ℕ
position s [] n = none
position s (d ∷ ds) n = if str_eq s d then some n else position s ds (n + 1)

abbrev shifted : ℕ → Option ℕ → Option ℕ
shifted n none = none
shifted n (some d) = some (n * 10 + d)

-- `int(s)` of decimal digits, after those that are read already
read_digits : Option ℕ → String → Option ℕ
unfolding position digits
read_digits none s = none
read_digits (some n) String.[] = some n
read_digits (some n) (String.◌∷◌ c s) =
    read_digits (shifted n (position (String.◌∷◌ c "") digits 0)) s

int : String → Result ℕ
unfolding read_digits
int s =
    if str_eq s ""
    then err (foreign_error ErrorClass.value_error "invalid literal for int()")
    else or_fail (read_digits (some 0) s)

pair : Result ℕ → Result ℕ → Result (ℕ × ℕ)
pair (ok a) (ok b) = ok (a, b)
pair (ok a) (err e) = err e
pair (err e) b = err e

version_of : List String → Result (ℕ × ℕ)
unfolding int pair
version_of (a ∷ b ∷ parts) = pair (int a) (int b)
version_of parts = err (foreign_error ErrorClass.index_error "list index out of range")

parse_version : Result Value → Result (ℕ × ℕ)
unfolding version_of split_dots
parse_version (ok (Value.text s)) = version_of (split_dots s)
parse_version (ok v) = err (foreign_error ErrorClass.exception "no attribute 'split'")
parse_version (err e) = err e

subscript_result : String → Result Value → Result Value
unfolding subscript
subscript_result key (ok v) = subscript key v
subscript_result key (err e) = err e

dict_result : Result Fields → Result Value
dict_result (ok fields) = ok (Value.dict fields)
dict_result (err e) = err e

module _ {W : Type 0} (api : Api W) where
  abbrev lift : {A : Type 0} → Result A → Exec (Client W) A
  lift r s = (r, s)

  abbrev pub in_world : {A : Type 0} → Exec W A → Exec (Client W) A
  in_world m s = let (r, w) = m s.world in (r, record s { world = w })

  -- `_request`
  abbrev pub make_request :
      String → String → Option Fields → List (String × String) → List (String × String) → Request
  make_request method path body headers params = record {
    method = method;
    url = format (api.api_url ∷ path ∷ []);
    headers = insert "Accept" "application/json" (insert "Content-Type" "application/json" headers);
    body = body;
    params = params;
  }

  abbrev store_version : ℕ × ℕ → Exec (Client W) (ℕ × ℕ)
  store_version version s = (ok version, record s { ironic_api_version = some version })

  -- The version in a response, which is then remembered.
  read_version : HttpResponse → Exec (Client W) (ℕ × ℕ)
  unfolding dict_result subscript_result parse_version ◌>>=◌
  read_version response = do
    version ← lift (
        parse_version (
          subscript_result "version"
            (subscript_result "default_version" (dict_result (api.loads response.content)))))
    store_version version

  discover : Exec (Client W) (ℕ × ℕ)
  unfolding read_version ◌>>=◌
  discover = do
    response ← in_world (api.send (make_request "GET" "/" none [] []))
    read_version response

  known_or_discover : Option (ℕ × ℕ) → Exec (Client W) (ℕ × ℕ)
  unfolding discover try_except
  known_or_discover (some version) = pure version
  known_or_discover none = try_except discover (λ e. pure min_ironic_version)

  -- `_get_ironic_api_version`
  unfoldable pub get_ironic_api_version : Exec (Client W) (ℕ × ℕ)
  unfolding known_or_discover
  get_ironic_api_version s = known_or_discover s.ironic_api_version s

  -- `_get_agent_url`
  abbrev get_agent_url : String × ℕ → String
  get_agent_url (host, port) = format ("http://" ∷ api.wrap_ipv6 host ∷ ":" ∷ show port ∷ [])

  -- The request of a heartbeat, by the version that the API speaks.
  pub heartbeat_request : String → String × ℕ → ℕ × ℕ → Request
  unfolding is_at_least version_header
  heartbeat_request uuid address version =
      let path = format ("/v1/heartbeat/" ∷ uuid ∷ []) in
      let callback = Value.text (get_agent_url address) in
      if is_at_least version agent_version_ironic_version
      then make_request "POST" path
          (some (
            Fields.field "callback_url" callback
              (Fields.field "agent_version" (Value.text api.release_string) Fields.end)))
          (version_header agent_version_ironic_version) []
      else make_request "POST" path (some (Fields.field "callback_url" callback Fields.end))
          (version_header min_ironic_version) []

  fault_string : Option Value → String
  fault_string (some (Value.text s)) = s
  fault_string _ = ""

  conflict : Result Fields → Exec (Client W) (Unit {0})
  unfolding fault_string
  conflict (ok body) = raise (
      rest_error_init ErrorClass.heartbeat_conflict_error
        (fault_string (lookup "faultstring" body)))
  conflict (err e) = raise e

  check_heartbeat : HttpResponse → Exec (Client W) (Unit {0})
  unfolding conflict
  check_heartbeat response =
      if response.status_code == 409
      then conflict (api.loads response.content)
      else if response.status_code == 202
      then pure tt
      else raise (
          rest_error_init ErrorClass.heartbeat_error
            (format ("Invalid status code: " ∷ show response.status_code ∷ [])))

  unfoldable pub send_heartbeat : Request → Exec (Client W) HttpResponse
  unfolding try_except
  send_heartbeat request =
      try_except (in_world (api.send request))
        (λ e. raise (rest_error_init ErrorClass.heartbeat_error (str e)))

  -- `heartbeat`
  unfoldable pub heartbeat : String → String × ℕ → Exec (Client W) (Unit {0})
  unfolding get_ironic_api_version heartbeat_request send_heartbeat check_heartbeat ◌>>=◌
  heartbeat uuid advertise_address = do
    version ← get_ironic_api_version
    response ← send_heartbeat (heartbeat_request uuid advertise_address version)
    check_heartbeat response

  -- The addresses of the interfaces that have one.
  known_addresses : List (Option String) → List String
  known_addresses [] = []
  known_addresses (none ∷ interfaces) = known_addresses interfaces
  known_addresses (some mac_address ∷ interfaces) = mac_address ∷ known_addresses interfaces

  node_param : Option String → List (String × String) → List (String × String)
  node_param none params = params
  node_param (some node_uuid) params =
      if str_eq node_uuid "" then params else insert "node_uuid" node_uuid params

  pub lookup_request : List (Option String) → Option String → Request
  unfolding known_addresses node_param version_header
  lookup_request interfaces node_uuid =
      make_request "GET" "/v1/lookup" none (version_header min_ironic_version)
        (node_param node_uuid (("addresses", join "," (known_addresses interfaces)) ∷ []))

  pub has_text : String → Values → Bool
  has_text s Values.nil = false
  has_text s (Values.cons (Value.text t) vs) = if str_eq t s then true else has_text s vs
  has_text s (Values.cons v vs) = has_text s vs

  not_iterable : Result Bool
  unfolding foreign_error
  not_iterable = err (foreign_error ErrorClass.type_error "argument is not iterable")

  -- `'uuid' in node`: a text may contain it too, and a list have it as an element
  contains_uuid : Value → Result Bool
  unfolding contains has_text not_iterable
  contains_uuid (Value.dict node) = ok (elim (lookup "uuid" node) [ none ↦ false | some v ↦ true ])
  contains_uuid (Value.text s) = ok (contains "uuid" s)
  contains_uuid (Value.list vs) = ok (has_text "uuid" vs)
  contains_uuid Value.null = not_iterable
  contains_uuid (Value.flag b) = not_iterable
  contains_uuid (Value.number n) = not_iterable

  -- `'node' in content and 'uuid' in content['node']`
  pub has_node : Option Value → Result Bool
  unfolding contains_uuid
  has_node none = ok false
  has_node (some node) = contains_uuid node

  -- `content.pop('heartbeat_timeout')`
  without_timeout : Fields → Fields
  without_timeout Fields.end = Fields.end
  without_timeout (Fields.field k v fields) =
      if str_eq k "heartbeat_timeout" then fields else Fields.field k v (without_timeout fields)

  with_timeout : Fields → Option Value → Option Fields
  unfolding without_timeout
  with_timeout content none = none
  with_timeout content (some timeout) = some (
      Fields.field "config" (Value.dict (Fields.field "heartbeat_timeout" timeout Fields.end))
        (without_timeout content))

  with_config : Fields → Option Value → Option Fields
  unfolding with_timeout
  with_config content (some config) = some content
  with_config content none = with_timeout content (lookup "heartbeat_timeout" content)

  -- The content that ends the loop of the lookup; `none` where `_do_lookup` returns False.
  take_content : Fields → Result Bool → Result (Option Fields)
  unfolding with_config
  take_content content (err e) = err e
  take_content content (ok false) = ok none
  take_content content (ok true) = ok (with_config content (lookup "config" content))

  check_content : Result Fields → Result (Option Fields)
  unfolding has_node take_content
  check_content (err e) = ok none
  check_content (ok content) = take_content content (has_node (lookup "node" content))

  check_lookup : Result HttpResponse → Result (Option Fields)
  unfolding check_content
  check_lookup (err e) = ok none
  check_lookup (ok response) =
      if response.status_code == 200 then check_content (api.loads response.content) else ok none

  -- `_do_lookup`
  unfoldable pub do_lookup : List (Option String) → Option String → Exec (Client W) (Option Fields)
  unfolding lookup_request check_lookup
  do_lookup interfaces node_uuid s =
      let (response, w) = api.send (lookup_request interfaces node_uuid) s.world in
      (check_lookup response, record s { world = w })
