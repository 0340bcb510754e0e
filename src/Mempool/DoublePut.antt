-- ===== src/Mempool/DoublePut.antt =====
-- What `put_memory` does to an item that is free already.
use rmw_microxrcedds.Prelude.{◌≡◌, refl, ◌∙◌, ◌≢◌, Bool, false, ◌&&◌, List, ◌∷◌, arith}
use rmw_microxrcedds.Mempool.{
  Ptr, null, Mempool, Fresh, lock, unlock, has_memory, unlink, push_free, take_free, put_memory,
  get_memory_within, get_memory,
}
use rmw_microxrcedds.Mempool.Invariant.{IsPool}
use rmw_microxrcedds.Mempool.Refinement.{unlink-dynamic}

-- A pool whose first free item is its own successor.
record IsLoop (m : Mempool) (p : Ptr) : Type 0 where
  ne_null : p ≢ null
  first : m.freeitems ≡ p
  next : (m.items p).next ≡ p

push_free-IsLoop : (m : Mempool) (p : Ptr) → p ≢ null → m.freeitems ≡ p → IsLoop (push_free p m) p
unfolding push_free
push_free-IsLoop m p ne e = record { ne_null = ne; first = refl; next = ground arith }

take_free_loop :
    (m : Mempool) (p : Ptr) → IsLoop m p → ((take_free m).0 ≡ p) × ((take_free m).1.freeitems ≡ p)
unfolding take_free
take_free_loop m p l = (l.first, ground arith)

get_memory_first :
    (dynamic : Bool) (fresh : Fresh) (m : Mempool) (p : Ptr)
    → p ≢ null
    → m.freeitems ≡ p
    → (get_memory dynamic fresh m).0 ≡ p
unfolding get_memory get_memory_within has_memory take_free
get_memory_first dynamic fresh m p ne e = ground arith

get_memory_loop :
    (dynamic : Bool) (fresh : Fresh) (m : Mempool) (p : Ptr)
    → IsLoop m p
    → (get_memory dynamic fresh m).1.freeitems ≡ p
unfolding get_memory get_memory_within has_memory
get_memory_loop dynamic fresh m p l = ground (arith, take_free_loop (lock m) p, l.first, l.ne_null)

unlock-IsLoop : (m : Mempool) (p : Ptr) → IsLoop m p → IsLoop (unlock m) p
unlock-IsLoop m p l = record { ne_null = l.ne_null; first = l.first; next = l.next }

unlink-freeitems : (m : Mempool) (p : Ptr) → (unlink p m).freeitems ≡ m.freeitems
unfolding unlink
unlink-freeitems m p = refl

put_memory-IsLoop :
    (dynamic : Bool) (m : Mempool) (p : Ptr)
    → p ≢ null
    → m.freeitems ≡ p
    → (dynamic && (m.items p).is_dynamic_memory) ≡ false
    → IsLoop (put_memory dynamic m p) p
unfolding put_memory
put_memory-IsLoop dynamic m p ne e static =
    rw (unlink-dynamic (lock m) p p, static)
      (unlock-IsLoop (push_free p (unlink p (lock m))) p
        (push_free-IsLoop (unlink p (lock m)) p ne (unlink-freeitems (lock m) p ∙ e)))

-- Putting the first free item of a pool, not dynamic, once more makes the pool give it out twice:
-- the next two calls of `get_memory` return the same item.
pub put_memory_twice :
    (dynamic : Bool) (f g : Fresh) (m : Mempool) (xs ys : List Ptr) (p : Ptr)
    → IsPool m xs (p ∷ ys)
    → (dynamic && (m.items p).is_dynamic_memory) ≡ false
    → let r = get_memory dynamic f (put_memory dynamic m p) in
      (r.0 ≡ p) × ((get_memory dynamic g r.1).0 ≡ p)
put_memory_twice dynamic f g m xs ys p w static =
    let m' = put_memory dynamic m p in
    let l = put_memory-IsLoop dynamic m p w.free.1 w.free.0 static in
    (
      get_memory_first dynamic f m' p l.ne_null l.first,
      get_memory_first dynamic g (get_memory dynamic f m').1 p l.ne_null
          (get_memory_loop dynamic f m' p l),
    )
