-- ===== src/Hardware/Dispatch/Caching.antt =====
-- What `cache_node` stores, and when it waits for the root device.
use test_frerfhrebfd.Common.{
  String, ◌≡◌, Bool, true, false, Option, none, some, List, arith, str_eq, if◌then◌else◌,
}
use test_frerfhrebfd.Exec.{ok}
use test_frerfhrebfd.Hardware.Types.{Node, Manager, Hardware}
use test_frerfhrebfd.Hardware.Dispatch.{cache_node, dispatch_to_managers}

-- The cached node, if there is one, has the UUID `u`.
abbrev pub is_cached : String → Option Node → Bool
is_cached u none = false
is_cached u (some old) = elim old.uuid [ none ↦ false | some v ↦ str_eq v u ]

abbrev pub has_uuid : Option Node → Bool
has_uuid none = true
has_uuid (some old) = elim old.uuid [ none ↦ false | some v ↦ true ]

abbrev pub with_node : {E V : Type 0} → Node → Hardware E V → Hardware E V
with_node node s = record s { world = record (s.world) { node = some node } }

module _ {E V : Type 0} (extension_manager : List (Manager E V)) where
  -- `cache_node` of a node with a UUID stores the node; if the cached node has the same UUID
  -- that is all, and otherwise the result is that of the dispatch of `wait_for_disks`, made with the
  -- new node in place. (A cached node always has a UUID.)
  pub cache_node_lem :
      (node : Node) (u : String) (s : Hardware E V)
      → node.uuid ≡ some u
      → has_uuid s.world.node ≡ true
      → cache_node extension_manager node s ≡ (
          if is_cached u s.world.node
          then (ok tt, with_node node s)
          else dispatch_to_managers extension_manager "wait_for_disks"
              (λ m. m.wait_for_disks)
              (with_node node s))
  unfolding cache_node
  cache_node_lem node u s h k = ground arith
