-- ===== src/AgentAddress.antt =====
-- ironic_python_agent/agent.py: `_get_route_source` and `set_agent_advertise_addr`. `ip_route_get` is
-- the call of `ip route get`, `gethostbyname` that of the resolver, and `is_link_local` that of netaddr
-- on a text that is an address.
pub mod Found
use Prim.Native.Char.{Char}
use test_frerfhrebfd.Common.{
  ℕ, zero, suc, String, Bool, true, false, Option, none, some, List, [], ◌∷◌, ◌||◌, str_eq, strip,
  is_space, text_after, text_before, if◌then◌else◌,
}
use test_frerfhrebfd.Errors.Hierarchy.{ErrorClass, is_subclass}
use test_frerfhrebfd.Errors.Build.{Error, rest_error_init}
use test_frerfhrebfd.Exec.{
  Result, ok, err, Exec, pure, raise, modify, try_except, except, ◌>>=◌, ◌>>◌,
}

pub record Network (W : Type 0) : Type 0 where
  pub ip_route_get : String → Exec W String
  pub is_link_local : String → Bool
  pub gethostbyname : String → Exec W String
  pub get_ipv4_addr : String → Exec W (Option String)
  pub sleep : W → W

-- What the agent knows of its address: `advertise_address`, and what lies outside.
pub record Address (W : Type 0) : Type 0 where
  pub hostname : Option String
  pub port : ℕ
  pub world : W

-- The settings of the agent that the search reads.
pub record Settings : Type 0 where
  pub network_interface : Option String
  pub ironic_host : String
  pub ip_lookup_attempts : ℕ

-- `text.split()[0]`, and nothing of a text without words
first_word_of : String → String
first_word_of String.[] = ""
first_word_of (String.◌∷◌ c s) =
    let rest = first_word_of s in if is_space c then "" else String.◌∷◌ c rest

abbrev word : String → Option String
word s = if str_eq s "" then none else some s

after_src : Option String → Option String
unfolding first_word_of
after_src none = none
after_src (some s) = word (first_word_of (strip (text_before "src" s)))

-- `out.strip().split('\n')[0].split('src')[1].split()[0]`; `none` where it is an IndexError
unfoldable pub source_of : String → Option String
unfolding after_src
source_of out = after_src (text_after "src" (text_before "\n" (strip out)))

-- `except (EnvironmentError, processutils.ProcessExecutionError)`
unfoldable pub is_route_error : Error → Bool
is_route_error e =
    is_subclass e.class ErrorClass.process_execution_error
    || is_subclass e.class ErrorClass.os_error

module _ {W : Type 0} (network : Network W) where
  unless_link_local : Option String → Option String
  unless_link_local none = none
  unless_link_local (some source) = if network.is_link_local source then none else some source

  -- `_get_route_source`
  unfoldable pub get_route_source : String → Exec W (Option String)
  unfolding source_of unless_link_local try_except ◌>>=◌
  get_route_source dest =
      try_except (do out ← network.ip_route_get dest; pure (unless_link_local (source_of out)))
        (λ e. if is_route_error e then pure none else raise e)

  -- A host that cannot be resolved is taken as it is; `socket.gaierror` is the only OSError of the
  -- resolver.
  resolve : String → Exec W String
  unfolding except
  resolve ironic_host =
      except ErrorClass.os_error (network.gethostbyname ironic_host) (λ e. pure ironic_host)

  -- The end of an attempt: a source ends the search, and otherwise it goes on after a pause.
  next_attempt : Option String → Exec W (Option String) → Exec W (Option String)
  next_attempt (some source) rest w = (ok (some source), w)
  next_attempt none rest w = rest (network.sleep w)

  -- The loop over the attempts that are left.
  unfoldable pub look_up : ℕ → String → Exec W (Option String)
  unfolding get_route_source next_attempt ◌>>=◌
  look_up zero ironic_host = pure none
  look_up (suc attempts) ironic_host =
      let rest = look_up attempts ironic_host in
      (do found_ip ← get_route_source ironic_host; next_attempt found_ip rest)

  find_ip : Option String → Settings → Exec W (Option String)
  unfolding resolve look_up ◌>>=◌
  find_ip (some network_interface) settings = network.get_ipv4_addr network_interface
  find_ip none settings = do
    ironic_host ← resolve settings.ironic_host
    look_up settings.ip_lookup_attempts ironic_host

  abbrev in_world : {A : Type 0} → Exec W A → Exec (Address W) A
  in_world m s = let (r, w) = m s.world in (r, record s { world = w })

  refuse_ip : Exec (Address W) (Unit {0})
  refuse_ip =
      raise (
        rest_error_init ErrorClass.lookup_agent_ip_error "Agent could not find a valid IP address.")

  -- An empty text is no address either.
  store_ip : Option String → Exec (Address W) (Unit {0})
  unfolding refuse_ip
  store_ip none = refuse_ip
  store_ip (some found_ip) =
      if str_eq found_ip "" then refuse_ip else modify (λ s. record s { hostname = some found_ip })

  set_unless_known : Option String → Settings → Exec (Address W) (Unit {0})
  unfolding find_ip store_ip ◌>>=◌
  set_unless_known (some hostname) settings = pure tt
  set_unless_known none settings = do
    found_ip ← in_world (find_ip settings.network_interface settings)
    store_ip found_ip

  -- `set_agent_advertise_addr`
  unfoldable pub set_agent_advertise_addr : Settings → Exec (Address W) (Unit {0})
  unfolding set_unless_known
  set_agent_advertise_addr settings s = set_unless_known s.hostname settings s
