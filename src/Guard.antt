-- ===== src/Guard.antt =====
-- Guard conditions: rmw_guard_condition.c and rmw_trigger_guard_condition.c
-- (rmw_microxrcedds_c/src). A guard condition's `rmw_guard_condition` is named by the address of
-- the entity that holds it, and its `data` is that address.
pub mod Life
mod Tests
use Prim.Native.String.{String}
use rmw_microxrcedds.Prelude.{
  ℕ, Bool, true, false, not, Option, none, some, List, [], ◌∷◌, ◌==◌, if◌then◌else◌,
}
use rmw_microxrcedds.Pool
use rmw_microxrcedds.Types.{Ptr, Entities, RmwRet, ret_ok, ret_error}
use rmw_microxrcedds.Identifiers.{rmw_get_implementation_identifier, is_uxrce_rmw_identifier_valid}
use rmw_microxrcedds.Entity.{set_at}

-- `rmw_uxrce_guard_condition_t`
pub record GuardCondition : Type 0 where
  pub has_triggered : Bool
  pub context : Ptr
  pub implementation_identifier : Option String
  pub contents : Ptr

abbrev pub Guards : Type 0
Guards = Entities GuardCondition

unfoldable pub guard_in : Ptr → Option Ptr × Pool.Pool → Guards → Option Ptr × Guards
guard_in context (none, memory) g = (none, g)
guard_in context (some x, memory) g = (
  some x,
  record {
    memory = memory;
    at =
        set_at x
          (record {
            has_triggered = false;
            context = context;
            implementation_identifier = some rmw_get_implementation_identifier;
            contents = x;
          })
          g.at;
  },
)

-- `rmw_create_guard_condition`
unfoldable pub rmw_create_guard_condition : Ptr → Guards → Option Ptr × Guards
unfolding guard_in
rmw_create_guard_condition context g = guard_in context (Pool.get g.memory) g

-- The loop over `allocateditems`: whether the address is there.
unfoldable pub find_guard : Ptr → List Ptr → Bool
find_guard x [] = false
find_guard x (y ∷ ys) = if y == x then true else find_guard x ys

-- `rmw_destroy_guard_condition`
unfoldable pub rmw_destroy_guard_condition : Ptr → Guards → RmwRet × Guards
rmw_destroy_guard_condition x g =
    if find_guard x g.memory.allocated
    then (ret_ok, record { memory = Pool.put x g.memory; at = g.at })
    else (ret_error, g)

-- The branch of `rmw_trigger_guard_condition` that triggers.
unfoldable pub trigger : Ptr → Guards → Guards
trigger x g = record {
  memory = g.memory;
  at = set_at (g.at x).contents (record (g.at (g.at x).contents) { has_triggered = true }) g.at;
}

-- `rmw_trigger_guard_condition`; `none` is a NULL pointer.
unfoldable pub rmw_trigger_guard_condition : Option Ptr → Guards → RmwRet × Guards
unfolding trigger
rmw_trigger_guard_condition none g = (ret_error, g)
rmw_trigger_guard_condition (some x) g =
    if is_uxrce_rmw_identifier_valid (g.at x).implementation_identifier
    then (ret_ok, trigger x g)
    else (ret_error, g)
