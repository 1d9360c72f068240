-- ===== src/Samples/Addresses.antt =====
-- agent.py: the second attempt finds the route. The world is the number of commands.
use test_frerfhrebfd.Common.{
  ℕ, suc, String, ◌≡◌, refl, false, none, some, ◌==◌, strip, text_after, text_before, if◌then◌else◌,
}
use test_frerfhrebfd.Errors.Hierarchy.{is_subclass}
use test_frerfhrebfd.Errors.Build.{process_execution_error}
use test_frerfhrebfd.Exec.{ok, err}
use test_frerfhrebfd.AgentAddress.{
  Network, Address, Settings, set_agent_advertise_addr, is_route_error,
}
use test_frerfhrebfd.AgentAddress.Found.{Advertised, set_agent_advertise_addr-Advertised}

abbrev route : String
route = "192.0.2.9 via 198.51.100.1 dev eth0  src 198.51.100.7 uid 0\n    cache"

abbrev network : Network ℕ
network = record {
  ip_route_get = λ dest s.
      (if s == 0 then err (process_execution_error 2 "" "unreachable" "") else ok route, suc s);
  is_link_local = λ ip. false;
  gethostbyname = λ host s. (ok "192.0.2.9", s);
  get_ipv4_addr = λ interface s. (ok none, s);
  sleep = λ s. s;
}

abbrev settings : Settings
settings = record { network_interface = none; ironic_host = "ironic"; ip_lookup_attempts = 3 }

abbrev unknown : Address ℕ
unknown = record { hostname = none; port = 9999; world = 0 }

abbrev known : Address ℕ
known = record { hostname = some "198.51.100.7"; port = 9999; world = 2 }

address_set : set_agent_advertise_addr network settings unknown ≡ (ok tt, known)
unfolding set_agent_advertise_addr is_route_error is_subclass process_execution_error strip
    text_after text_before
address_set = refl

set_agent_advertise_addr-Advertised_example : Advertised network settings unknown known
set_agent_advertise_addr-Advertised_example =
    set_agent_advertise_addr-Advertised network settings unknown known address_set
