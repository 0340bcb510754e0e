-- ===== src/Mempool/Init.antt =====
-- RMW_INIT_MEMORY of rmw_microxrcedds_c/src/types.c: a pool over an array in static storage.
use mathlib.Core.List.{reverse, reverse_aux}
use rmw_microxrcedds.Prelude.{
  ℕ, ◌≡◌, refl, ◌≢◌, Bool, true, false, List, [], ◌∷◌, arith, has, Distinct, Apart,
}
use rmw_microxrcedds.Mempool.{
  Ptr, null, Items, Mempool, lock, unlock, unlink, push_free, put_memory, init_item, init_items,
  start_pool, init_memory,
}
use rmw_microxrcedds.Mempool.Chain.{Chain-first}
use rmw_microxrcedds.Mempool.Refinement.{unlink-dynamic}
use rmw_microxrcedds.Mempool.Invariant.{
  IsPool, items-IsPool, lock-IsPool, unlock-IsPool, unlink_new-IsPool, push_free-IsPool,
}

-- An item as static storage holds it: all zero.
pub record IsBlank (h : Items) (p : Ptr) : Type 0 where
  pub ne_null : p ≢ null
  pub prev : (h p).prev ≡ null
  pub next : (h p).next ≡ null
  pub static : (h p).is_dynamic_memory ≡ false

abbrev pub AllBlank : Items → List Ptr → Type 0
AllBlank h [] = Unit {0}
AllBlank h (p ∷ ps) = IsBlank h p × AllBlank h ps

module _ (dynamic : Bool) (m : Mempool) (xs ys : List Ptr) (p : Ptr) (w : IsPool m xs ys)
    (blank : IsBlank m.items p) (out : has p xs ≡ false) (away : has p ys ≡ false) where
  put_blank : put_memory dynamic m p ≡ unlock (push_free p (unlink p (lock m)))
  unfolding put_memory
  put_blank = rw (unlink-dynamic (lock m) p p, blank.static) (ground arith)

  pub put_blank-IsPool : IsPool (put_memory dynamic m p) xs (p ∷ ys)
  put_blank-IsPool = rw put_blank (
      unlock-IsPool (push_free p (unlink p (lock m))) xs (p ∷ ys) (
        push_free-IsPool (unlink p (lock m)) xs ys p
          (unlink_new-IsPool (lock m) xs ys p (lock-IsPool m xs ys w) blank.ne_null out blank.prev
            blank.next)
          out away blank.ne_null))

  init_item-IsPool : IsPool (init_item dynamic m p) xs (p ∷ ys)
  unfolding init_item
  init_item-IsPool =
      items-IsPool (put_memory dynamic m p) (init_item dynamic m p).items xs (p ∷ ys)
        (λ a. (ground arith, ground arith)) put_blank-IsPool

  -- An item that is neither `p` nor in a list stays as it was.
  init_item-other :
      (q : Ptr) → q ≢ p → q ≢ m.freeitems → (init_item dynamic m p).items q ≡ m.items q
  unfolding init_item unlink push_free
  init_item-other q ne far = rw put_blank (ground arith)

AllBlank-frame :
    (h g : Items) (ps : List Ptr)
    → ((q : Ptr) → has q ps ≡ true → g q ≡ h q)
    → AllBlank h ps
    → AllBlank g ps
AllBlank-frame h g [] same b = tt
AllBlank-frame h g (p ∷ ps) same b = (
  record {
    ne_null = b.0.ne_null;
    prev = ground (arith, same p);
    next = ground (arith, same p);
    static = ground (arith, same p);
  },
  AllBlank-frame h g ps (λ q i. same q (ground arith)) b.1,
)

AllBlank-null : (h : Items) (ps : List Ptr) → AllBlank h ps → has null ps ≡ false
AllBlank-null h [] b = refl
AllBlank-null h (p ∷ ps) b = ground (arith, AllBlank-null h ps b.1, b.0.ne_null)

-- Each round of the loop adds one item to the free pool.
init_items-IsPool :
    (dynamic : Bool) (m : Mempool) (ys ps : List Ptr)
    → IsPool m [] ys
    → AllBlank m.items ps
    → Distinct ps
    → Apart ps ys
    → IsPool (init_items dynamic m ps) [] (reverse_aux ps ys)
unfolding init_items
init_items-IsPool dynamic m ys [] w b d apart = w
init_items-IsPool dynamic m ys (p ∷ ps) w b d apart =
    let away : has p ys ≡ false = apart p (ground arith) in
    let first = Chain-first m.items null m.freeitems ys w.free in
    let same : (q : Ptr) → has q ps ≡ true → (init_item dynamic m p).items q ≡ m.items q = λ q i.
      init_item-other dynamic m [] ys p w b.0 refl away q (ground arith)
        (ground (arith, first, apart q, AllBlank-null m.items ps b.1)) in
    init_items-IsPool dynamic (init_item dynamic m p) (p ∷ ys) ps
      (init_item-IsPool dynamic m [] ys p w b.0 refl away)
      (AllBlank-frame m.items (init_item dynamic m p).items ps same b.1) d.1
      (λ a i. ground (arith, apart a))

init_memory-first :
    (dynamic : Bool) (element_size : ℕ) (m : Mempool) (p : Ptr) (ps : List Ptr)
    → m.is_initialized ≡ false
    → init_memory dynamic element_size (p ∷ ps) m
      ≡ init_items dynamic (start_pool element_size m) (p ∷ ps)
unfolding init_memory
init_memory-first dynamic element_size m p ps fresh = ground arith

-- The pool after RMW_INIT_MEMORY on a pool that is not initialised and distinct blank items: no
-- item is allocated, and every item of the array is free, the last one first.
pub init_memory-IsPool :
    (dynamic : Bool) (element_size : ℕ) (m : Mempool) (p : Ptr) (ps : List Ptr)
    → m.is_initialized ≡ false
    → AllBlank m.items (p ∷ ps)
    → Distinct (p ∷ ps)
    → IsPool (init_memory dynamic element_size (p ∷ ps) m) [] (reverse (p ∷ ps))
init_memory-IsPool dynamic element_size m p ps fresh b d =
    rw (init_memory-first dynamic element_size m p ps fresh) (
      init_items-IsPool dynamic (start_pool element_size m) [] (p ∷ ps)
        (record {
          allocated = refl;
          free = refl;
          allocated_once = tt;
          free_once = tt;
          apart = λ a i. refl;
        })
        b d (λ a i. refl))
