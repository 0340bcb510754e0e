-- ===== src/Node/Tests.antt =====
-- The theorems on nodes: one node is created, and one with an entity of each kind is destroyed.
use rmw_microxrcedds.Prelude.{◌≡◌, ◌⊎◌, refl, true, false, [], ◌∷◌, arith, ◌==◌}
use rmw_microxrcedds.Types.{Ptr}
use rmw_microxrcedds.Identifiers.{is_uxrce_rmw_identifier_valid, rmw_get_implementation_identifier}
use rmw_microxrcedds.Entity.Claim.{IsHandle}
use rmw_microxrcedds.Samples.Network.{library, config, idle, busy, handle_at}
use rmw_microxrcedds.Node.{ContextHandle, rmw_create_node, rmw_destroy_node}
use rmw_microxrcedds.Node.Create.{NoNode, NewNode, rmw_create_node-cases}
use rmw_microxrcedds.Node.Destroy.{IsNode, Destroyed, rmw_destroy_node-Destroyed}

abbrev context : ContextHandle
context = record { impl = 10; actual_domain_id = 0 }

rmw_create_node-cases_example :
    let r = rmw_create_node library config context (97 ∷ []) (47 ∷ []) (idle 0) in
    NoNode (idle 0) r ⊎ NewNode context (97 ∷ []) (47 ∷ []) (idle 0) r
rmw_create_node-cases_example =
    rmw_create_node-cases library config context (97 ∷ []) (47 ∷ []) (idle 0) refl

used-IsHandle : (used x : Ptr) → (x == used) ≡ true → (x == 0) ≡ false → IsHandle (handle_at used x)
unfolding is_uxrce_rmw_identifier_valid rmw_get_implementation_identifier
used-IsHandle used x e ne = record { valid = rw e refl; set = rw e ne }

busy-IsNode : IsNode library config 20 busy
busy-IsNode = record {
  node = used-IsHandle 20 20 refl refl;
  publishers_once = (refl, tt);
  subscriptions_once = (refl, tt);
  services_once = (refl, tt);
  clients_once = (refl, tt);
  publishers = λ x m o. used-IsHandle 41 x (ground (arith, m)) (ground (arith, m));
  subscriptions = λ x m o. used-IsHandle 51 x (ground (arith, m)) (ground (arith, m));
  services = λ x m o. used-IsHandle 61 x (ground (arith, m)) (ground (arith, m));
  clients = λ x m o. used-IsHandle 71 x (ground (arith, m)) (ground (arith, m));
}

rmw_destroy_node-Destroyed_example :
    Destroyed library config 20 busy (rmw_destroy_node library config 20 busy)
rmw_destroy_node-Destroyed_example = rmw_destroy_node-Destroyed library config 20 busy busy-IsNode
