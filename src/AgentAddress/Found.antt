-- ===== src/AgentAddress/Found.antt =====
-- What address the agent ends up with.
use test_frerfhrebfd.Common.{
  ℕ, zero, suc, String, ◌≡◌, refl, false, Option, none, some, ◌⊎◌, inl, inr, arith, Bool-cases,
  str_eq,
}
use test_frerfhrebfd.Exec.{ok, Exec}
use test_frerfhrebfd.Exec.Ensures.{
  Ensures, Ensures-pure, Ensures-raise, Ensures-call, Ensures-if, Ensures-try, Ensures-bind,
  Ensures-imp, Ensures-modify,
}
use test_frerfhrebfd.AgentAddress.{
  Network, Address, Settings, source_of, unless_link_local, is_route_error, get_route_source,
  resolve, next_attempt, look_up, find_ip, in_world, refuse_ip, store_ip, set_unless_known,
  set_agent_advertise_addr,
}

module _ {W : Type 0} (network : Network W) where
  -- An address that a route to some host gave: the source in what `ip route get` printed, and not
  -- link-local.
  abbrev pub OfRoute : String → Type 0
  OfRoute ip =
      (dest out : String) × (u v : W) × (network.ip_route_get dest u ≡ (ok out, v))
      × (source_of out ≡ some ip)
      × (network.is_link_local ip ≡ false)

  abbrev pub IsFound : (String → Type 0) → Option String → Type 0
  IsFound P none = Unit
  IsFound P (some ip) = P ip

  unless_link_local-IsFound :
      (dest out : String) (u v : W) (o : Option String)
      → network.ip_route_get dest u ≡ (ok out, v)
      → source_of out ≡ o
      → IsFound OfRoute (unless_link_local network o)
  unfolding unless_link_local
  unless_link_local-IsFound dest out u v none h k = tt
  unless_link_local-IsFound dest out u v (some ip) h k =
      elim (Bool-cases (network.is_link_local ip)) [
        | inl b ↦ rw b tt
        | inr b ↦ rw b (dest, out, u, v, h, k, b)
      ]

  get_route_source-IsFound :
      (dest : String) (s : W) → Ensures (get_route_source network dest) (λ o t. IsFound OfRoute o) s
  unfolding get_route_source
  get_route_source-IsFound dest s =
      Ensures-try _ _
        (Ensures-bind (network.ip_route_get dest) _
          (λ out t h. Ensures-pure (unless_link_local-IsFound dest out s t (source_of out) h refl)))
        (λ e u h. Ensures-if (is_route_error e) (λ b. Ensures-pure tt) (λ b. Ensures-raise))

  next_attempt-IsFound :
      (o : Option String) (rest : Exec W (Option String)) (s : W)
      → IsFound OfRoute o
      → ((u : W) → Ensures rest (λ p t. IsFound OfRoute p) u)
      → Ensures (next_attempt network o rest) (λ p t. IsFound OfRoute p) s
  unfolding next_attempt
  next_attempt-IsFound none rest s f ih =
      Ensures-call (λ p t h. (ih (network.sleep s)).ensured p t h)
  next_attempt-IsFound (some source) rest s f ih = Ensures-pure f

  look_up-IsFound :
      (attempts : ℕ) (host : String) (s : W)
      → Ensures (look_up network attempts host) (λ o t. IsFound OfRoute o) s
  unfolding look_up
  look_up-IsFound zero host s = Ensures-pure tt
  look_up-IsFound (suc attempts) host s = Ensures-bind (get_route_source network host) _ (λ o u h.
      next_attempt-IsFound o (look_up network attempts host) u
        ((get_route_source-IsFound host s).ensured o u h) (look_up-IsFound attempts host))

  -- An address that the interface that is configured has, or one of a route.
  abbrev pub IsUsable : Settings → String → Type 0
  IsUsable settings ip =
      ((interface : String) × (u v : W) × (settings.network_interface ≡ some interface)
        × (network.get_ipv4_addr interface u ≡ (ok (some ip), v)))
      ⊎ OfRoute ip

  widen :
      (settings : Settings) (o : Option String) → IsFound OfRoute o → IsFound (IsUsable settings) o
  widen settings none f = tt
  widen settings (some ip) f = inr f

  of_interface :
      (settings : Settings) (interface : String) (u v : W) (o : Option String)
      → settings.network_interface ≡ some interface
      → network.get_ipv4_addr interface u ≡ (ok o, v)
      → IsFound (IsUsable settings) o
  of_interface settings interface u v none e h = tt
  of_interface settings interface u v (some ip) e h = inl (interface, u, v, e, h)

  find_ip-IsFound :
      (settings : Settings) (o : Option String) (s : W)
      → settings.network_interface ≡ o
      → Ensures (find_ip network o settings) (λ ip t. IsFound (IsUsable settings) ip) s
  unfolding find_ip
  find_ip-IsFound settings (some interface) s e =
      Ensures-call (λ ip t h. of_interface settings interface s t ip e h)
  find_ip-IsFound settings none s e =
      Ensures-bind (resolve network settings.ironic_host) _ (λ host u h.
        Ensures-imp (look_up-IsFound settings.ip_lookup_attempts host u)
          (λ ip t f. widen settings ip f))

  -- The address is as before where there was one; else it is one that can be used, with the port.
  abbrev pub Advertised : Settings → Address W → Address W → Type 0
  Advertised settings s t =
      ((hostname : String) × (s.hostname ≡ some hostname) × (t ≡ s))
      ⊎ ((ip : String) × (s.hostname ≡ none)
          × (t.hostname ≡ some ip)
          × (t.port ≡ s.port)
          × IsUsable settings ip)

  stored :
      (settings : Settings) (s u : Address W) (o : Option String)
      → s.hostname ≡ none
      → u.port ≡ s.port
      → IsFound (IsUsable settings) o
      → Ensures (store_ip network o) (λ x. Advertised settings s) u
  unfolding store_ip refuse_ip
  stored settings s u none n p f = Ensures-raise
  stored settings s u (some ip) n p f =
      Ensures-if (str_eq ip "") (λ b. Ensures-raise)
        (λ b. Ensures-modify _ (inr (ip, n, refl, p, f)))

  set_unless_known-Advertised :
      (settings : Settings) (o : Option String) (s : Address W)
      → s.hostname ≡ o
      → Ensures (set_unless_known network o settings) (λ x. Advertised settings s) s
  unfolding set_unless_known
  set_unless_known-Advertised settings (some hostname) s e = Ensures-pure (inl (hostname, e, refl))
  set_unless_known-Advertised settings none s e =
      Ensures-bind (in_world network (find_ip network settings.network_interface settings)) _
        (λ found_ip u h. stored settings s u found_ip e (ground arith) (
          (find_ip-IsFound settings settings.network_interface s.world refl).ensured found_ip
            u.world (ground arith)))

  -- When the agent has set its address, it had one and nothing has changed; or it had none, and now
  -- has, with its port, an address of the interface that is configured, or an address that a route
  -- gave as its source and that is not link-local.
  pub set_agent_advertise_addr-Advertised :
      (settings : Settings) (s t : Address W)
      → set_agent_advertise_addr network settings s ≡ (ok tt, t)
      → Advertised settings s t
  unfolding set_agent_advertise_addr
  set_agent_advertise_addr-Advertised settings s t h =
      (set_unless_known-Advertised settings s.hostname s refl).ensured tt t h
