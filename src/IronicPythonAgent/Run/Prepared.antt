-- ===== src/IronicPythonAgent/Run/Prepared.antt =====
-- agent.py: what comes before the server in `run`.
use test_frerfhrebfd.Common.{
  String, true, false, Option, none, some, not, ◌≡◌, refl, inl, inr, ◌⊎◌, arith,
}
use test_frerfhrebfd.Exec.{ok, modify}
use test_frerfhrebfd.Exec.Ensures.{Ensures, Ensures-pure, Ensures-if, Ensures-bind, Ensures-imp}
use test_frerfhrebfd.Value.{Value, Fields, lookup as field_of}
use test_frerfhrebfd.Hardware.Types.{Node}
use test_frerfhrebfd.IronicPythonAgent.{
  Content, Surroundings, AgentSettings, Service, in_world, given,
}
use test_frerfhrebfd.IronicPythonAgent.Serve.Handled.{in_world-step}
use test_frerfhrebfd.IronicPythonAgent.Run.{
  item_or_error, assign_node, set_timeout, keep_node, keep_config, look_up_and_keep, lift,
  update_config, inspect_if, look_up_node, keep_content, prepare_node, prepare_if,
}

module _ {W : Type 0} (around : Surroundings W) (settings : AgentSettings) where
  -- What the lookup has left: the node with a UUID, which has been cached, and the timeout of the
  -- heartbeats; the service has not been opened or closed by it.
  pub record LookedUp (uuid : Option String) (s t : Service W) : Type 0 where
    pub content : Content
    pub node : Node
    pub node_uuid : String
    pub config : Fields
    pub found : W
    pub cached : W
    pub look : look_up_node around settings uuid s.world ≡ (ok content, found)
    pub has_node : content.node ≡ some node
    pub has_uuid : node.uuid ≡ some node_uuid
    pub cache : around.cache_node node found ≡ (ok tt, cached)
    pub has_config : content.config ≡ some config
    pub configure : update_config around settings config cached ≡ (ok tt, t.world)
    pub node_kept : t.node ≡ some node
    pub timeout_kept : t.heartbeat_timeout ≡ field_of "heartbeat_timeout" config
    pub serves_still : t.serve_api ≡ s.serve_api
    pub beats_still : t.is_heartbeating ≡ s.is_heartbeating

  some_item :
      {A : Type 0} (key : String) (o : Option A) (s : Service W) (a : A) (t : Service W)
      → lift (item_or_error key o) s ≡ (ok a, t)
      → (o ≡ some a) × (s ≡ t)
  unfolding item_or_error
  some_item key none s a t h = absurd (ground arith)
  some_item key (some b) s a t h = (ground arith, ground arith)

  abbrev NodeKept : Content → Service W → Service W → Type 0
  NodeKept content s t =
      (node : Node) × (node_uuid : String) × (content.node ≡ some node)
      × (node.uuid ≡ some node_uuid)
      × (around.cache_node node s.world ≡ (ok tt, t.world))
      × (t ≡ record s { node = some node; world = t.world })

  keep_node-NodeKept :
      (content : Content) (s : Service W)
      → Ensures (keep_node around settings content) (λ x. NodeKept content s) s
  unfolding keep_node
  keep_node-NodeKept content s =
      Ensures-bind (lift (item_or_error "node" content.node)) _ (λ node u a.
        Ensures-bind (modify (assign_node around settings node)) _ (λ x v b.
          Ensures-bind (lift (item_or_error "uuid" node.uuid)) _ (λ node_uuid w c.
            let (has_node, i) = some_item "node" content.node s node u a in
            let (has_uuid, j) = some_item "uuid" node.uuid v node_uuid w c in
            Ensures-imp (in_world-step (around.cache_node node) w) (λ y t (d, e).
              let world : s.world ≡ w.world = ground arith in
              (node, node_uuid, has_node, has_uuid, rw world d, ground arith)))))

  abbrev ConfigKept : Content → Service W → Service W → Type 0
  ConfigKept content s t =
      (config : Fields) × (timeout : Value) × (content.config ≡ some config)
      × (field_of "heartbeat_timeout" config ≡ some timeout)
      × (update_config around settings config s.world ≡ (ok tt, t.world))
      × (t ≡ record s { heartbeat_timeout = some timeout; world = t.world })

  keep_config-ConfigKept :
      (content : Content) (s : Service W)
      → Ensures (keep_config around settings content) (λ x. ConfigKept content s) s
  unfolding keep_config
  keep_config-ConfigKept content s =
      Ensures-bind (lift (item_or_error "config" content.config)) _ (λ config u a.
        Ensures-bind
          (lift (item_or_error "heartbeat_timeout" (field_of "heartbeat_timeout" config))) _
          (λ timeout v b. Ensures-bind (modify (set_timeout around settings timeout)) _ (λ x w c.
            let (has_config, i) = some_item "config" content.config s config u a in
            let (has_timeout, j) =
              some_item "heartbeat_timeout" (field_of "heartbeat_timeout" config) u timeout v b in
            Ensures-imp (in_world-step (update_config around settings config) w) (λ y t (d, e).
              let world : s.world ≡ w.world = ground arith in
              (config, timeout, has_config, has_timeout, rw world d, ground arith)))))

  look_up_and_keep-LookedUp :
      (uuid : Option String) (s : Service W)
      → Ensures (look_up_and_keep around settings uuid) (λ x. LookedUp uuid s) s
  unfolding look_up_and_keep keep_content
  look_up_and_keep-LookedUp uuid s =
      Ensures-bind (in_world (look_up_node around settings uuid)) _ (λ content u a.
        let (look, same) =
          (in_world-step (look_up_node around settings uuid) s).ensured content u a in
        Ensures-bind (keep_node around settings content) _ (λ x v b.
          let (node, node_uuid, has_node, has_uuid, cache, kept) =
            (keep_node-NodeKept content u).ensured x v b in
          Ensures-imp (keep_config-ConfigKept content v)
            (λ y t (config, timeout, has_config, has_timeout, configure, kept'). record {
              content = content;
              node = node;
              node_uuid = node_uuid;
              config = config;
              found = u.world;
              cached = v.world;
              look = look;
              has_node = has_node;
              has_uuid = has_uuid;
              cache = cache;
              has_config = has_config;
              configure = configure;
              node_kept = ground arith;
              timeout_kept = ground arith;
              serves_still = ground arith;
              beats_still = ground arith;
            })))

  -- What comes before the server: inspection if it has an address, and then the lookup if Ironic
  -- has one; nothing of it for an agent that stands alone.
  abbrev pub Prepared : Service W → Service W → Type 0
  Prepared s t =
      ((settings.standalone ≡ true) × (s ≡ t))
      ⊎ ((settings.standalone ≡ false)
          × (uuid : Option String) × (u : W) × (inspect_if around settings s.world ≡ (ok uuid, u))
          × (((given settings.api_url ≡ false) × (t ≡ record s { world = u }))
              ⊎ ((given settings.api_url ≡ true) × LookedUp uuid (record s { world = u }) t)))

  pub prepare_if-Prepared :
      (s : Service W) → Ensures (prepare_if around settings) (λ x. Prepared s) s
  unfolding prepare_if prepare_node
  prepare_if-Prepared s =
      Ensures-if (not settings.standalone)
        (λ b. Ensures-bind (in_world (inspect_if around settings)) _ (λ uuid u a.
          let (inspect, same) = (in_world-step (inspect_if around settings) s).ensured uuid u a in
          Ensures-if (given settings.api_url)
            (λ c.
              Ensures-imp (look_up_and_keep-LookedUp uuid u)
                (λ x t l. inr (ground arith, uuid, u.world, inspect, inr (c, rw (← same) l))))
            (λ c. Ensures-pure (inr (ground arith, uuid, u.world, inspect, inl (c, same))))))
        (λ b. Ensures-pure (inl (ground arith, refl)))

  pub Prepared-keeps :
      (s t : Service W)
      → Prepared s t
      → (t.serve_api ≡ s.serve_api) × (t.is_heartbeating ≡ s.is_heartbeating)
  Prepared-keeps s t (inl (b, same)) = (ground arith, ground arith)
  Prepared-keeps s t (inr (b, uuid, u, i, inl (c, same))) = (ground arith, ground arith)
  Prepared-keeps s t (inr (b, uuid, u, i, inr (c, l))) = (l.serves_still, l.beats_still)
