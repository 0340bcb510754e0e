-- ===== src/Endpoint.antt =====
-- What publishers, subscriptions, services and clients share in their creation: the label `fail` of
-- `rmw_create_publisher` and `rmw_create_subscription`, and where a pool stands in the state
-- (rmw_microxrcedds_c/src/rmw_publisher.c, rmw_subscription.c, rmw_service.c, rmw_client.c).
pub mod Pools
pub mod Handles
use rmw_microxrcedds.Prelude.{
  ℕ, ◌≡◌, refl, ◌+◌, Bool, true, false, not, ◌||◌, Option, none, some, List, length, ltb, ◌==◌,
  if◌then◌else◌,
}
use rmw_microxrcedds.Types.{Ptr, RmwRet, ret_error, ReliabilityPolicy, StreamId, Entities, Handle}
use rmw_microxrcedds.Identifiers.{is_uxrce_rmw_identifier_valid}
use rmw_microxrcedds.Entity.{Handled, fini_memory, set_entity}
use rmw_microxrcedds.Xrce.{Config, Context, World, SameEntities}
use rmw_microxrcedds.Topic.{drop_topic}

-- A pool of the state, which holds entities with handles.
pub record Slot (Agent A : Type 0) : Type 1 where
  pub entities : World Agent → Entities A
  pub write : Entities A → World Agent → World Agent
  pub handled : Handled A
  pub entities-write : (e : Entities A) (w : World Agent) → entities (write e w) ≡ e
  pub write-topics : (e : Entities A) (w : World Agent) → (write e w).topics ≡ w.topics
  pub same : (u v : World Agent) → SameEntities u v → entities v ≡ entities u

unfoldable pub is_best_effort : ReliabilityPolicy → Bool
is_best_effort ReliabilityPolicy.best_effort = true
is_best_effort ReliabilityPolicy.reliable = false
is_best_effort ReliabilityPolicy.system_default = false
is_best_effort ReliabilityPolicy.unknown = false
is_best_effort (ReliabilityPolicy.other n) = false

-- The streams of an entity with that reliability.
unfoldable pub output_stream : ReliabilityPolicy → Context → StreamId
output_stream reliability context =
    if is_best_effort reliability then context.best_effort_output else context.reliable_output

unfoldable pub input_stream : ReliabilityPolicy → Context → StreamId
input_stream reliability context =
    if is_best_effort reliability then context.best_effort_input else context.reliable_input

module _ {Agent A : Type 0} (slot : Slot Agent A) where
  -- The entity at an address is written.
  abbrev pub write_at : Ptr → A → World Agent → World Agent
  write_at x a w = slot.write (set_entity x a (slot.entities w)) w

  -- `rmw_uxrce_fini_*_memory(handle)`
  abbrev pub fini_at : Ptr → World Agent → World Agent
  fini_at x w = slot.write (fini_memory slot.handled x (slot.entities w)) w

  -- The label `fail` of an entity with a topic: the topic goes back if there is one, then the
  -- entity.
  unfoldable pub fail_with_topic : (A → Ptr) → Ptr → World Agent → Option Ptr × World Agent
  fail_with_topic topic x w = (none, fini_at x (drop_topic (topic ((slot.entities w).at x)) w))

  unfoldable pub finish_with_topic : (A → Ptr) → Ptr → Bool → World Agent → Option Ptr × World Agent
  finish_with_topic topic x done w = if done then (some x, w) else fail_with_topic topic x w

-- The first checks of `rmw_destroy_*`: the handles of the node and of the entity.
unfoldable pub refused : Handle → Handle → Bool
refused node entity =
    not (is_uxrce_rmw_identifier_valid node.implementation_identifier)
    || (node.contents == 0)
    || not (is_uxrce_rmw_identifier_valid entity.implementation_identifier)
    || (entity.contents == 0)
