-- ===== src/Mempool/Refinement.antt =====
-- The functions of memory.c do to the linked lists what `Pool` does to its lists.
use rmw_microxrcedds.Prelude.{
  ◌≡◌, ◌≢◌, Bool, true, false, ◌&&◌, Option, none, some, ◌∷◌, arith, ◌==◌, if◌then◌else◌, has,
  remove, has-remove_self,
}
use rmw_microxrcedds.Pool
use rmw_microxrcedds.Pool.{Pool}
use rmw_microxrcedds.Mempool.{Ptr, null, Mempool, lock, unlink, push_free, put_memory}
use rmw_microxrcedds.Mempool.Chain.{Chain-null}
use rmw_microxrcedds.Mempool.Invariant.{
  IsPool, lock-IsPool, unlock-IsPool, unlink-IsPool, push_free-IsPool,
}

-- The linked lists of `m` are the lists of `p`.
abbrev pub Models : Mempool → Pool → Type 0
Models m p = IsPool m p.allocated p.free

-- A pointer that a function returns.
abbrev pub to_option : Ptr → Option Ptr
to_option p = if p == null then none else some p

pub unlink-dynamic :
    (m : Mempool) (p q : Ptr)
    → ((unlink p m).items q).is_dynamic_memory ≡ (m.items q).is_dynamic_memory
unfolding unlink
unlink-dynamic m p q = ground arith

module _ (dynamic : Bool) (m : Mempool) (p : Pool) (x : Ptr) (w : Models m p)
    (held : has x p.allocated ≡ true) where
  unlinked : IsPool (unlink x (lock m)) (remove x p.allocated) p.free
  unlinked = unlink-IsPool (lock m) p.allocated p.free x (lock-IsPool m _ _ w) held

  held_ne : x ≢ null
  held_ne = ground (arith, Chain-null m.items null m.allocateditems p.allocated w.allocated)

  -- `put_memory` of an allocated item that is not dynamic moves it to the head of the free pool.
  pub put_memory-refines :
      (dynamic && (m.items x).is_dynamic_memory) ≡ false
      → Models (put_memory dynamic m x) (Pool.put x p)
  unfolding put_memory Pool.put
  put_memory-refines static =
      rw (unlink-dynamic (lock m) x x, static)
        (unlock-IsPool (push_free x (unlink x (lock m))) (remove x p.allocated) (x ∷ p.free) (
          push_free-IsPool (unlink x (lock m)) (remove x p.allocated) p.free x unlinked
            (has-remove_self x p.allocated w.allocated_once) (w.apart x held) held_ne))
