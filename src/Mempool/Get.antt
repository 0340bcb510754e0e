-- ===== src/Mempool/Get.antt =====
-- `get_memory` of memory.c, on each of its branches.
use rmw_microxrcedds.Prelude.{
  ℕ, suc, ◌≡◌, refl, ap, ◌≢◌, Bool, true, false, ◌&&◌, List, [], ◌∷◌, arith, has,
}
use rmw_microxrcedds.Pool
use rmw_microxrcedds.Pool.{Pool}
use rmw_microxrcedds.Mempool.{
  Ptr, null, Mempool, Fresh, lock, unlock, has_memory, unlink, push_free, put_memory,
  get_memory_within, get_memory, add_dynamic, set_dynamic, write, dynamic_item,
}
use rmw_microxrcedds.Mempool.Chain.{Chain-frame}
use rmw_microxrcedds.Mempool.Invariant.{
  IsPool, items-IsPool, lock-IsPool, unlock-IsPool, unlink_new-IsPool, push_free-IsPool,
  take_free-IsPool,
}
use rmw_microxrcedds.Mempool.Refinement.{Models, to_option, unlink-dynamic}

has_memory-cons :
    (m : Mempool) (xs ys : List Ptr) (y : Ptr) → IsPool m xs (y ∷ ys) → has_memory m ≡ true
unfolding has_memory
has_memory-cons m xs ys y w = ground arith

has_memory-nil : (m : Mempool) (xs : List Ptr) → IsPool m xs [] → has_memory m ≡ false
unfolding has_memory
has_memory-nil m xs w = ground arith

module _ (depth : ℕ) (dynamic : Bool) (fresh : Fresh) (m : Mempool) where
  -- With memory the first free item is taken, at every depth.
  get_memory_within-cons :
      (xs ys : List Ptr) (y : Ptr)
      → IsPool m xs (y ∷ ys)
      → ((get_memory_within (suc depth) dynamic fresh m).0 ≡ y)
        × IsPool (get_memory_within (suc depth) dynamic fresh m).1 (y ∷ xs) ys
  unfolding get_memory_within
  get_memory_within-cons xs ys y w =
      let w' = lock-IsPool m xs (y ∷ ys) w in
      let t = take_free-IsPool (lock m) xs ys y w' in
      rw (has_memory-cons (lock m) xs ys y w') (t.0, unlock-IsPool _ (y ∷ xs) ys t.1)

  get_memory_within-nil :
      (xs : List Ptr)
      → (m.is_dynamic_allowed && dynamic) ≡ false
      → IsPool m xs []
      → ((get_memory_within (suc depth) dynamic fresh m).0 ≡ null)
        × IsPool (get_memory_within (suc depth) dynamic fresh m).1 xs []
  unfolding get_memory_within
  get_memory_within-nil xs static w =
      let w' = lock-IsPool m xs [] w in
      rw (has_memory-nil (lock m) xs w', static) (refl, unlock-IsPool _ xs [] w')

get_memory-IsPool :
    (dynamic : Bool) (fresh : Fresh) (m : Mempool) (xs ys : List Ptr)
    → (m.is_dynamic_allowed && dynamic) ≡ false
    → IsPool m xs ys
    → (to_option (get_memory dynamic fresh m).0
        ≡ (Pool.get (record { allocated = xs; free = ys })).0)
      × Models (get_memory dynamic fresh m).1 (Pool.get (record { allocated = xs; free = ys })).1
unfolding get_memory Pool.get
get_memory-IsPool dynamic fresh m xs [] static w =
    let t = get_memory_within-nil 1 dynamic fresh m xs static w in (rw t.0, t.1)
get_memory-IsPool dynamic fresh m xs (y ∷ ys) static w =
    let t = get_memory_within-cons 1 dynamic fresh m xs ys y w in (rw t.0 (ground arith), t.1)

-- Without dynamic allocation `get_memory` takes the first free item, and returns null exactly
-- when there is none.
pub get_memory-refines :
    (dynamic : Bool) (fresh : Fresh) (m : Mempool) (p : Pool)
    → Models m p
    → (m.is_dynamic_allowed && dynamic) ≡ false
    → (to_option (get_memory dynamic fresh m).0 ≡ (Pool.get p).0)
      × Models (get_memory dynamic fresh m).1 (Pool.get p).1
get_memory-refines dynamic fresh m p w static =
    get_memory-IsPool dynamic fresh m p.allocated p.free static w

-- A new item that is in no list goes through the free pool.
module _ (fresh : Fresh) (m : Mempool) (xs : List Ptr) (w : IsPool m xs []) (ne : fresh.item ≢ null)
    (new : has fresh.item xs ≡ false) where
  added : Mempool
  added = record m { items = write m.items fresh.item (dynamic_item fresh.contents) }

  added-IsPool : IsPool added xs []
  unfolding added
  added-IsPool = record {
    allocated =
        Chain-frame m.items added.items null m.allocateditems xs (λ a i. ground arith) w.allocated;
    free = w.free;
    allocated_once = w.allocated_once;
    free_once = tt;
    apart = λ a i. refl;
  }

  unlinked : Mempool
  unfolding added
  unlinked = unlink fresh.item (lock added)

  pushed-IsPool : IsPool (push_free fresh.item unlinked) xs (fresh.item ∷ [])
  unfolding added unlinked
  pushed-IsPool =
      push_free-IsPool unlinked xs [] fresh.item
        (unlink_new-IsPool (lock added) xs [] fresh.item (lock-IsPool added xs [] added-IsPool) ne
          new (ground arith) (ground arith))
        new refl ne

  pushed : Mempool
  unfolding unlinked
  pushed = push_free fresh.item unlinked

  unlinked_static : (unlinked.items fresh.item).is_dynamic_memory ≡ false
  unfolding added unlinked
  unlinked_static = rw (unlink-dynamic (lock added) fresh.item fresh.item) (ground arith)

  -- It is not yet dynamic when it goes there, and so it is not released.
  put_added : put_memory true added fresh.item ≡ unlock pushed
  unfolding put_memory pushed
  put_added = unfold unlinked in rw unlinked_static

  add_dynamic_lem :
      add_dynamic fresh m
      ≡ record (unlock pushed) { items = set_dynamic fresh.item (unlock pushed).items }
  unfolding add_dynamic added
  add_dynamic_lem =
      ap (λ (m' : Mempool). record m' { items = set_dynamic fresh.item m'.items }) put_added

  pub add_dynamic-IsPool : IsPool (add_dynamic fresh m) xs (fresh.item ∷ [])
  add_dynamic-IsPool = rw add_dynamic_lem (
      items-IsPool (unlock pushed) (set_dynamic fresh.item pushed.items) xs (fresh.item ∷ [])
        (λ a. (ground arith, ground arith))
        (unlock-IsPool pushed xs (fresh.item ∷ []) (unfold pushed in pushed-IsPool)))

  pub add_dynamic-flag : ((add_dynamic fresh m).items fresh.item).is_dynamic_memory ≡ true
  add_dynamic-flag = rw add_dynamic_lem (ground arith)

get_memory_within-again :
    (depth : ℕ) (dynamic : Bool) (fresh : Fresh) (m : Mempool)
    → has_memory (lock m) ≡ false
    → (m.is_dynamic_allowed && dynamic) ≡ true
    → get_memory_within (suc depth) dynamic fresh m ≡ (
        let r = get_memory_within depth dynamic fresh (add_dynamic fresh (lock m)) in
        (r.0, unlock r.1))
unfolding get_memory_within
get_memory_within-again depth dynamic fresh m empty allowed = rw (empty, allowed)

module _ (fresh : Fresh) (m : Mempool) (xs : List Ptr) (w : IsPool m xs []) (ne : fresh.item ≢ null)
    (new : has fresh.item xs ≡ false) (allowed : (m.is_dynamic_allowed && true) ≡ true) where
  -- With dynamic allocation a request that finds no free item gets the new one, which is not null
  -- and in no list. It becomes the first allocated item, and the free pool is empty again.
  pub get_memory-allocates :
      ((get_memory true fresh m).0 ≡ fresh.item)
      × IsPool (get_memory true fresh m).1 (fresh.item ∷ xs) []
  unfolding get_memory
  get_memory-allocates =
      let w' = lock-IsPool m xs [] w in
      let t =
        get_memory_within-cons 0 true fresh (add_dynamic fresh (lock m)) xs [] fresh.item
          (add_dynamic-IsPool fresh (lock m) xs w' ne new) in
      rw (get_memory_within-again 1 true fresh m (has_memory-nil (lock m) xs w') allowed)
        (t.0, unlock-IsPool _ (fresh.item ∷ xs) [] t.1)
