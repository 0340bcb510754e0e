-- ===== src/Endpoint/Handles.antt =====
-- The checks of handles at the beginning of `rmw_destroy_*`.
use rmw_microxrcedds.Prelude.{◌≡◌, refl, true, false, ◌==◌, arith}
use rmw_microxrcedds.Types.{Handle}
use rmw_microxrcedds.Identifiers.{is_uxrce_rmw_identifier_valid}
use rmw_microxrcedds.Entity.{no_handle}
use rmw_microxrcedds.Entity.Claim.{valid_none, IsHandle}
use rmw_microxrcedds.Endpoint.{refused}

-- What passes the checks.
pub record Accepted (node entity : Handle) : Type 0 where
  pub node_valid : is_uxrce_rmw_identifier_valid node.implementation_identifier ≡ true
  pub node_set : (node.contents == 0) ≡ false
  pub entity_valid : is_uxrce_rmw_identifier_valid entity.implementation_identifier ≡ true
  pub entity_set : (entity.contents == 0) ≡ false

pub refused-cases : (node entity : Handle) → refused node entity ≡ false → Accepted node entity
unfolding refused
refused-cases node entity e = record {
  node_valid = ground (arith, e);
  node_set = ground (arith, e);
  entity_valid = ground (arith, e);
  entity_set = ground (arith, e);
}

-- An entity whose handle is gone is refused.
pub refused-no_handle : (node : Handle) → refused node no_handle ≡ true
unfolding refused
refused-no_handle node = rw valid_none (ground arith)

pub refused-IsHandle :
    (node entity : Handle) → IsHandle node → IsHandle entity → refused node entity ≡ false
unfolding refused
refused-IsHandle node entity i j = rw (i.valid, i.set, j.valid, j.set) refl
