-- ===== src/Guard/Life.antt =====
-- The life of a guard condition.
use rmw_microxrcedds.Prelude.{
  ◌≡◌, refl, true, false, some, List, [], ◌∷◌, arith, ==_self, ◌==◌, has,
}
use rmw_microxrcedds.Pool
use rmw_microxrcedds.Types.{Ptr, ret_ok}
use rmw_microxrcedds.Identifiers.{rmw_get_implementation_identifier, is_uxrce_rmw_identifier_valid}
use rmw_microxrcedds.Entity.Claim.{put-take}
use rmw_microxrcedds.Guard.{
  Guards, guard_in, rmw_create_guard_condition, find_guard, rmw_destroy_guard_condition, trigger,
  rmw_trigger_guard_condition,
}

valid : is_uxrce_rmw_identifier_valid (some rmw_get_implementation_identifier) ≡ true
unfolding is_uxrce_rmw_identifier_valid rmw_get_implementation_identifier
valid = refl

find_guard-has : (x : Ptr) (xs : List Ptr) → find_guard x xs ≡ has x xs
unfolding find_guard
find_guard-has x [] = refl
find_guard-has x (y ∷ ys) = ground (arith, find_guard-has x ys)

-- If the pool has a free item, `rmw_create_guard_condition` makes a guard condition that has not
-- triggered. Triggering it answers RMW_RET_OK and sets its flag and no other. Destroying it answers
-- RMW_RET_OK and leaves the pool as it was before the creation.
pub guard_condition_life :
    (context x : Ptr) (xs : List Ptr) (g : Guards)
    → g.memory.free ≡ x ∷ xs
    → let (item, g₁) = rmw_create_guard_condition context g in
      let (ret, g₂) = rmw_trigger_guard_condition item g₁ in
      let (end, g₃) = rmw_destroy_guard_condition x g₂ in
      (item ≡ some x)
      × ((g₁.at x).has_triggered ≡ false)
      × (ret ≡ ret_ok)
      × ((g₂.at x).has_triggered ≡ true)
      × ((y : Ptr) → (y == x) ≡ false → g₂.at y ≡ g.at y)
      × (end ≡ ret_ok)
      × (g₃.memory ≡ g.memory)
unfolding rmw_create_guard_condition guard_in Pool.get Pool.take rmw_trigger_guard_condition trigger
    rmw_destroy_guard_condition find_guard
guard_condition_life context x xs g e =
    rw (e, ==_self x, valid)
      (
        refl,
        refl,
        refl,
        rw (==_self x) refl,
        λ y ne. rw ne refl,
        rw (==_self x) refl,
        rw (==_self x) (put-take g.memory.allocated xs x),
      )
