-- ===== src/Mempool/Release.antt =====
-- `put_memory` of a dynamic item, and the mutex of the pool.
use rmw_microxrcedds.Prelude.{
  ℕ, zero, suc, ◌+◌, ◌≡◌, refl, ◌∙◌, Bool, true, ◌&&◌, List, ◌∷◌, arith, if◌then◌else◌, has, remove,
}
use rmw_microxrcedds.Mempool.{
  Ptr, Mempool, Fresh, lock, unlink, push_free, take_free, put_memory, get_memory_within,
  get_memory, add_dynamic, write, dynamic_item,
}
use rmw_microxrcedds.Mempool.Invariant.{IsPool, lock-IsPool, unlink-IsPool}
use rmw_microxrcedds.Mempool.Refinement.{unlink-dynamic}

unlink-contents : (m : Mempool) (p : Ptr) → ((unlink p m).items p).contents ≡ (m.items p).contents
unfolding unlink
unlink-contents m p = ground arith

unlink-released : (m : Mempool) (p : Ptr) → (unlink p m).released ≡ m.released
unfolding unlink
unlink-released m p = refl

unlink-mutex : (m : Mempool) (p : Ptr) → (unlink p m).mutex ≡ m.mutex
unfolding unlink
unlink-mutex m p = refl

-- `put_memory` of an allocated dynamic item takes it out of the pool, where allocations may be
-- dynamic: it is in neither list, and it and its data are released.
pub put_memory-releases :
    (m : Mempool) (xs ys : List Ptr) (p : Ptr)
    → IsPool m xs ys
    → has p xs ≡ true
    → (m.items p).is_dynamic_memory ≡ true
    → IsPool (put_memory true m p) (remove p xs) ys
      × ((put_memory true m p).released ≡ p ∷ (m.items p).contents ∷ m.released)
unfolding put_memory
put_memory-releases m xs ys p w held flag =
    let u = unlink-IsPool (lock m) xs ys p (lock-IsPool m xs ys w) held in
    rw (unlink-dynamic (lock m) p p, flag)
      (
        record {
          allocated = u.allocated;
          free = u.free;
          allocated_once = u.allocated_once;
          free_once = u.free_once;
          apart = u.apart;
        },
        rw (unlink-contents (lock m) p, unlink-released (lock m) p),
      )

push_free-mutex : (m : Mempool) (p : Ptr) → (push_free p m).mutex ≡ m.mutex
unfolding push_free
push_free-mutex m p = refl

-- `put_memory` gives the mutex back, except that for a dynamic item it returns with the mutex held
-- once more than before the call.
pub put_memory-mutex :
    (dynamic : Bool) (m : Mempool) (p : Ptr)
    → (put_memory dynamic m p).mutex
      ≡ (if dynamic && (m.items p).is_dynamic_memory then m.mutex + 1 else m.mutex)
unfolding put_memory
put_memory-mutex dynamic m p =
    rw (unlink-dynamic (lock m) p p)
      (ground (arith, unlink-mutex (lock m) p, push_free-mutex (unlink p (lock m)) p))

take_free-mutex : (m : Mempool) → (take_free m).1.mutex ≡ m.mutex
unfolding take_free
take_free-mutex m = refl

add_dynamic-mutex : (fresh : Fresh) (m : Mempool) → (add_dynamic fresh m).mutex ≡ m.mutex
unfolding add_dynamic
add_dynamic-mutex fresh m =
    let m₁ = record m { items = write m.items fresh.item (dynamic_item fresh.contents) } in
    put_memory-mutex true m₁ fresh.item ∙ ground arith

get_memory_within-mutex :
    (depth : ℕ) (dynamic : Bool) (fresh : Fresh) (m : Mempool)
    → (get_memory_within depth dynamic fresh m).1.mutex ≡ m.mutex
unfolding get_memory_within
get_memory_within-mutex zero dynamic fresh m = refl
get_memory_within-mutex (suc depth) dynamic fresh m = ground (
  arith,
  take_free-mutex (lock m),
  add_dynamic-mutex fresh (lock m),
  get_memory_within-mutex depth dynamic fresh (add_dynamic fresh (lock m)),
)

-- `get_memory` gives the mutex back on every branch.
pub get_memory-mutex :
    (dynamic : Bool) (fresh : Fresh) (m : Mempool) → (get_memory dynamic fresh m).1.mutex ≡ m.mutex
unfolding get_memory
get_memory-mutex dynamic fresh m = get_memory_within-mutex 2 dynamic fresh m
