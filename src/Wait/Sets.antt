-- ===== src/Wait/Sets.antt =====
-- Wait sets: rmw_wait_set.c (rmw_microxrcedds_c/src). The code reads and writes nothing of a wait
-- set but its item in the pool.
use rmw_microxrcedds.Prelude.{◌≡◌, refl, ap, Option, some, List, ◌∷◌, has, ==_self, if◌then◌else◌}
use rmw_microxrcedds.Pool
use rmw_microxrcedds.Types.{Ptr, RmwRet, ret_ok, ret_error}
use rmw_microxrcedds.Entity.Claim.{put-take}

-- `rmw_create_wait_set`
unfoldable pub rmw_create_wait_set : Pool.Pool → Option Ptr × Pool.Pool
rmw_create_wait_set wait_sets = Pool.get wait_sets

-- `rmw_destroy_wait_set`
unfoldable pub rmw_destroy_wait_set : Ptr → Pool.Pool → RmwRet × Pool.Pool
rmw_destroy_wait_set x wait_sets =
    if has x wait_sets.allocated then (ret_ok, Pool.put x wait_sets) else (ret_error, wait_sets)

-- A wait set that is created and destroyed leaves the pool as it was.
pub wait_set_life :
    (x : Ptr) (allocated free : List Ptr)
    → let (item, p) = rmw_create_wait_set (record { allocated = allocated; free = x ∷ free }) in
      (item ≡ some x)
      × (rmw_destroy_wait_set x p ≡ (ret_ok, record { allocated = allocated; free = x ∷ free }))
unfolding rmw_create_wait_set rmw_destroy_wait_set Pool.get Pool.take
wait_set_life x allocated free =
    (refl, rw (==_self x) (ap (λ (p : Pool.Pool). (ret_ok, p)) (put-take allocated free x)))
