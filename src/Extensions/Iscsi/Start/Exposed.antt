-- ===== src/Extensions/Iscsi/Start/Exposed.antt =====
-- What `start_iscsi_target` has done when it returns.
use test_frerfhrebfd.Common.{
  ℕ, String, Bool, true, false, Option, none, some, List, [], ◌∷◌, ◌++◌, not, ◌==◌, format, show,
  if◌then◌else◌, ◌≡◌, refl, arith,
}
use test_frerfhrebfd.Errors.Hierarchy.{ErrorClass}
use test_frerfhrebfd.Exec.{ok, Exec, except, ◌>>=◌}
use test_frerfhrebfd.Exec.Ensures.{
  Ensures, Ensures-pure, Ensures-raise, Ensures-call, Ensures-if, Ensures-except, Ensures-try,
  Ensures-bind, Ensures-imp,
}
use test_frerfhrebfd.Extensions.Iscsi.{Root, Targets}
use test_frerfhrebfd.Extensions.Iscsi.CleanUp.{get_root}
use test_frerfhrebfd.Extensions.Iscsi.CleanUp.Deleted.{RootKnown, get_root-RootKnown}
use test_frerfhrebfd.Extensions.Iscsi.Start.{
  default_iscsi_portal_port, tgtadm, or_default, execute_cmd, wait_for_tgtd, add_portal, start_tgtd,
  create_lio, publish_lio, start_lio, iqn_or_new, wipe_if, start_with, start_iscsi_target,
}

-- A command, with how often it is tried.
abbrev pub Attempt : Type 0
Attempt = List String × ℕ

abbrev pub portal_commands : ℕ → List Attempt
portal_commands portal_port =
    if portal_port == default_iscsi_portal_port
    then []
    else (
      tgtadm "portal" ("new" ∷ "--param" ∷ format ("portal=0.0.0.0:" ∷ show portal_port ∷ []) ∷ []),
      1,
    )
      ∷ []

abbrev pub start_daemon : Attempt
start_daemon = ("tgtd" ∷ [], 1)

abbrev pub show_targets : Attempt
show_targets = (tgtadm "target" ("show" ∷ []), 10)

abbrev pub new_target : String → Attempt
new_target iqn = (tgtadm "target" ("new" ∷ "--tid" ∷ "1" ∷ "--targetname" ∷ iqn ∷ []), 1)

abbrev pub new_unit : String → Attempt
new_unit device = (
  tgtadm "logicalunit" ("new" ∷ "--tid" ∷ "1" ∷ "--lun" ∷ "1" ∷ "--backing-store" ∷ device ∷ []),
  1,
)

abbrev pub accept_all : Attempt
accept_all = (tgtadm "target" ("bind" ∷ "--tid" ∷ "1" ∷ "--initiator-address" ∷ "ALL" ∷ []), 1)

-- The commands that expose a device through TGT: the daemon is started and awaited, and a portal
-- is added for another port than the default.
abbrev pub tgt_commands : String → ℕ → String → List Attempt
tgt_commands iqn portal_port device =
    start_daemon
    ∷ show_targets
    ∷ (portal_commands portal_port ++ new_target iqn ∷ new_unit device ∷ accept_all ∷ [])

module _ {W : Type 0} (targets : Targets W) where
  -- The commands have succeeded one after the other.
  abbrev pub AllRan : List Attempt → W → W → Type 0
  AllRan [] u t = u ≡ t
  AllRan ((cmd, attempts) ∷ commands) u t =
      (v : W) × (out : String) × (targets.execute cmd attempts u ≡ (ok out, v))
      × AllRan commands v t

  -- A state is reached by commands from another.
  abbrev Step : List Attempt → W → Unit {0} → W → Type 0
  Step commands u x v = AllRan commands u v

  AllRan-append :
      (xs ys : List Attempt) (u v t : W) → AllRan xs u v → AllRan ys v t → AllRan (xs ++ ys) u t
  AllRan-append [] ys u v t same h = rw same h
  AllRan-append ((cmd, attempts) ∷ xs) ys u v t (w, out, e, h) k =
      (w, out, e, AllRan-append xs ys w v t h k)

  Step-bind :
      (m : Exec W (Unit {0})) (f : Unit {0} → Exec W (Unit {0})) (xs ys : List Attempt) (u : W)
      → Ensures m (Step xs u) u
      → ((v : W) → Ensures (f tt) (Step ys v) v)
      → Ensures (m >>= f) (Step (xs ++ ys) u) u
  Step-bind m f xs ys u h k =
      Ensures-bind m f
        (λ x v e. Ensures-imp (k v) (λ y t r. AllRan-append xs ys u v t (h.ensured x v e) r))

  execute_cmd-Step :
      (cmd : List String) (error_msg : String) (attempts : ℕ) (u : W)
      → Ensures (execute_cmd targets cmd error_msg attempts) (Step ((cmd, attempts) ∷ []) u) u
  unfolding execute_cmd
  execute_cmd-Step cmd error_msg attempts u =
      Ensures-try _ _
        (Ensures-bind (targets.execute cmd attempts) _ (λ out v h. Ensures-pure (v, out, h, refl)))
        (λ e v h. Ensures-raise)

  add_portal-Step :
      (portal_port : ℕ) (u : W)
      → Ensures (add_portal targets portal_port) (Step (portal_commands portal_port) u) u
  unfolding add_portal
  add_portal-Step portal_port u =
      Ensures-if (not (portal_port == default_iscsi_portal_port))
        (λ b.
          let c : (portal_port == default_iscsi_portal_port) ≡ false = ground arith in
          rw c (execute_cmd-Step _ _ 1 u))
        (λ b.
          let c : (portal_port == default_iscsi_portal_port) ≡ true = ground arith in
          rw c (Ensures-pure refl))

  start_tgtd-Step :
      (iqn device : String) (portal_port : ℕ) (u : W)
      → Ensures
          (start_tgtd targets iqn portal_port device)
          (Step (tgt_commands iqn portal_port device) u)
          u
  unfolding start_tgtd wait_for_tgtd
  start_tgtd-Step iqn device portal_port u =
      Step-bind (execute_cmd targets ("tgtd" ∷ []) _ 1) _ (start_daemon ∷ [])
        (show_targets
          ∷ (portal_commands portal_port ++ new_target iqn ∷ new_unit device ∷ accept_all ∷ []))
        u (execute_cmd-Step ("tgtd" ∷ []) _ 1 u)
        (λ v.
          Step-bind (wait_for_tgtd targets) _ (show_targets ∷ [])
            (portal_commands portal_port ++ new_target iqn ∷ new_unit device ∷ accept_all ∷ []) v
            (execute_cmd-Step (tgtadm "target" ("show" ∷ [])) _ 10 v)
            (λ w.
              Step-bind (add_portal targets portal_port) _ (portal_commands portal_port)
                (new_target iqn ∷ new_unit device ∷ accept_all ∷ []) w
                (add_portal-Step portal_port w)
                (λ x.
                  Step-bind _ _ (new_target iqn ∷ []) (new_unit device ∷ accept_all ∷ []) x
                    (execute_cmd-Step (new_target iqn).0 _ 1 x)
                    (λ y.
                      Step-bind _ _ (new_unit device ∷ []) (accept_all ∷ []) y
                        (execute_cmd-Step (new_unit device).0 _ 1 y)
                        (λ z. execute_cmd-Step accept_all.0 _ 1 z)))))

  -- What configures Linux-IO: a target with a portal group that anyone may use, the device as its
  -- logical unit 1, and a portal on the port.
  abbrev pub LioStarted : String → ℕ → String → W → W → Type 0
  LioStarted iqn portal_port device u t =
      (v : W) × (create_lio targets iqn device u ≡ (ok tt, v))
      × (w : W) × (listen_ip : String) × (targets.listen_ip v ≡ (ok listen_ip, w))
      × (targets.network_portal listen_ip portal_port w ≡ (ok tt, t))

  start_lio-LioStarted :
      (iqn device : String) (portal_port : ℕ) (u : W)
      → Ensures
          (start_lio targets iqn portal_port device)
          (λ x. LioStarted iqn portal_port device u)
          u
  unfolding start_lio publish_lio
  start_lio-LioStarted iqn device portal_port u =
      Ensures-bind (except ErrorClass.rtslib_error (create_lio targets iqn device) _) _ (λ x v h.
        let created =
          (Ensures-except {P = λ y v. create_lio targets iqn device u ≡ (ok tt, v)}
              ErrorClass.rtslib_error (create_lio targets iqn device) _ (Ensures-call (λ a t k. k))
              (λ e w k b. Ensures-raise)).ensured
            x v h in
        Ensures-except ErrorClass.rtslib_error _ _
          (Ensures-bind targets.listen_ip _
            (λ listen_ip w k. Ensures-call (λ y t l. (v, created, w, listen_ip, k, l))))
          (λ e w k b. Ensures-raise))

  -- The device is exposed by Linux-IO where it is available, and otherwise by TGT.
  abbrev pub Started : String → ℕ → String → Option Root → W → W → Type 0
  Started iqn portal_port device none u t = AllRan (tgt_commands iqn portal_port device) u t
  Started iqn portal_port device (some root) u t =
      (v : W) × LioStarted iqn portal_port device u v × (targets.dump v ≡ (ok tt, t))

  start_with-Started :
      (iqn device : String) (portal_port : ℕ) (root : Option Root) (u : W)
      → Ensures
          (start_with targets iqn portal_port device root)
          (λ x. Started iqn portal_port device root u)
          u
  unfolding start_with
  start_with-Started iqn device portal_port none u = start_tgtd-Step iqn device portal_port u
  start_with-Started iqn device portal_port (some root) u =
      Ensures-bind (start_lio targets iqn portal_port device) _ (λ x v h.
        Ensures-call
          (λ y t k. (v, (start_lio-LioStarted iqn device portal_port u).ensured x v h, k)))

  abbrev pub Named : Option String → String → W → W → Type 0
  Named none iqn s t =
      (uuid : String) × (targets.generate_uuid s ≡ (ok uuid, t))
      × (iqn ≡ format ("iqn.2008-10.org.openstack:" ∷ uuid ∷ []))
  Named (some given) iqn s t = (iqn ≡ given) × (s ≡ t)

  iqn_or_new-Named :
      (iqn : Option String) (s : W) → Ensures (iqn_or_new targets iqn) (λ name. Named iqn name s) s
  unfolding iqn_or_new
  iqn_or_new-Named none s =
      Ensures-bind targets.generate_uuid _ (λ uuid t h. Ensures-pure (uuid, h, refl))
  iqn_or_new-Named (some iqn) s = Ensures-pure (refl, refl)

  abbrev pub Wiped : Bool → String → W → W → Type 0
  Wiped true device u t =
      (v : W) × (node_uuid : String) × (targets.get_node_uuid u ≡ (ok node_uuid, v))
      × (targets.destroy_disk_metadata device node_uuid v ≡ (ok tt, t))
  Wiped false device u t = u ≡ t

  wipe_if-Wiped :
      (wipe : Bool) (device : String) (u : W)
      → Ensures (wipe_if targets wipe device) (λ x. Wiped wipe device u) u
  unfolding wipe_if
  wipe_if-Wiped true device u =
      Ensures-bind targets.get_node_uuid _
        (λ node_uuid v h. Ensures-call (λ x t k. (v, node_uuid, h, k)))
  wipe_if-Wiped false device u = Ensures-pure refl

  -- One successful call, from `s` to `t`.
  pub record Exposed (given : Option String) (wipe : Bool) (port : Option ℕ) (iqn : String)
      (s t : W) : Type 0 where
    pub device : String
    pub root : Option Root
    pub name_known : W
    pub device_known : W
    pub wiped : W
    pub root_known : W
    pub name : Named given iqn s name_known
    pub find : targets.get_os_install_device name_known ≡ (ok device, device_known)
    pub wipe_disk : Wiped wipe device device_known wiped
    pub find_root : RootKnown targets wiped root root_known
    pub started : Started iqn (or_default port) device root root_known t

  start_iscsi_target-Ensures :
      (given : Option String) (wipe : Bool) (port : Option ℕ) (s : W)
      → Ensures
          (start_iscsi_target targets given wipe port)
          (λ iqn. Exposed given wipe port iqn s)
          s
  unfolding start_iscsi_target
  start_iscsi_target-Ensures given wipe port s =
      Ensures-bind (iqn_or_new targets given) _ (λ name u a.
        Ensures-bind targets.get_os_install_device _ (λ device v b.
          Ensures-bind (wipe_if targets wipe device) _ (λ x w c.
            Ensures-bind (get_root targets) _ (λ root y d.
              Ensures-bind (start_with targets name (or_default port) device root) _ (λ x' z e.
                Ensures-pure (record {
                  device = device;
                  root = root;
                  name_known = u;
                  device_known = v;
                  wiped = w;
                  root_known = y;
                  name = (iqn_or_new-Named given s).ensured name u a;
                  find = b;
                  wipe_disk = (wipe_if-Wiped wipe device v).ensured x w c;
                  find_root = (get_root-RootKnown targets w).ensured root y d;
                  started =
                      (start_with-Started name device (or_default port) root y).ensured x' z e;
                }))))))

  -- `start_iscsi_target` returns only the name that it is given, or one with a new UUID, and only
  -- if the install device is known; if its metadata has been destroyed, where that is asked for;
  -- and if the device has been exposed on the port that is asked for, or else on 3260: where
  -- Linux-IO answers, by a target, a logical unit and a portal of it, and where it is not
  -- available, by the commands of TGT, which have all succeeded, with a portal of its own only for
  -- another port than 3260.
  pub start_iscsi_target-Exposed :
      (given : Option String) (wipe : Bool) (port : Option ℕ) (iqn : String) (s t : W)
      → start_iscsi_target targets given wipe port s ≡ (ok iqn, t)
      → Exposed given wipe port iqn s t
  start_iscsi_target-Exposed given wipe port iqn s t h =
      (start_iscsi_target-Ensures given wipe port s).ensured iqn t h
