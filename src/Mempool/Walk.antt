-- ===== src/Mempool/Walk.antt =====
-- The loops of types.c and rmw_init.c (rmw_microxrcedds_c/src) that walk the allocated items of a
-- pool through `next` and put some of them back, in the build without dynamic allocation. They read
-- the next item before they put one back. The number of steps is the fuel.
use mathlib.Core.List.{append_assoc}
use rmw_microxrcedds.Prelude.{
  ℕ, zero, suc, ◌≤◌, ◌≡◌, ◌≢◌, refl, sym, ap, ◌∙◌, inl, inr, Bool, true, false, List, [], ◌∷◌, ◌++◌,
  arith, Bool-cases, ◌==◌, if◌then◌else◌, has, Distinct, remove, length, remove-append, has-append,
}
use rmw_microxrcedds.Pool
use rmw_microxrcedds.Pool.{Pool}
use rmw_microxrcedds.Mempool.{Ptr, null, Items, Mempool, put_memory}
use rmw_microxrcedds.Mempool.Chain.{Chain}
use rmw_microxrcedds.Mempool.Refinement.{Models, put_memory-refines}

-- The loop `while (item != NULL)`: it reads `next = item->next`, puts the item back if it passes the
-- test, and goes on with `item = next`.
unfoldable pub walk_put : ℕ → (Ptr → Bool) → Ptr → Mempool → Mempool
walk_put zero test p m = m
walk_put (suc fuel) test p m =
    let next = (m.items p).next in
    let rest = walk_put fuel test next (if test p then put_memory false m p else m) in
    if p == null then m else rest

-- The same on the lists of the pool.
unfoldable pub release : (Ptr → Bool) → List Ptr → Pool → Pool
release test [] p = p
release test (x ∷ xs) p = release test xs (if test x then Pool.put x p else p)

abbrev first : List Ptr → Ptr
first [] = null
first (x ∷ xs) = x

Chain-successor :
    (h : Items) (before p : Ptr) (kept xs : List Ptr) (x : Ptr)
    → Chain h before p (kept ++ x ∷ xs)
    → (x ≢ null) × ((h x).next ≡ first xs)
Chain-successor h before p [] [] x c = (c.1, c.3)
Chain-successor h before p [] (y ∷ xs) x c = (c.1, c.3.0)
Chain-successor h before p (k ∷ kept) xs x c = Chain-successor h k (h k).next kept xs x c.3

head-first : (h : Items) (before p : Ptr) (xs : List Ptr) → Chain h before p xs → p ≡ first xs
head-first h before p [] c = c
head-first h before p (x ∷ xs) c = c.0

Distinct-outside : (kept xs : List Ptr) (x : Ptr) → Distinct (kept ++ x ∷ xs) → has x kept ≡ false
Distinct-outside [] xs x d = refl
Distinct-outside (k ∷ kept) xs x d =
    ground (arith, d.0, has-append k kept (x ∷ xs), Distinct-outside kept xs x d.1)

first-null : (fuel : ℕ) (test : Ptr → Bool) (m : Mempool) → walk_put fuel test null m ≡ m
unfolding walk_put
first-null zero test m = refl
first-null (suc fuel) test m = refl

walk_put-suc :
    (fuel : ℕ) (test : Ptr → Bool) (p : Ptr) (m : Mempool)
    → (p == null) ≡ false
    → walk_put (suc fuel) test p m
      ≡ walk_put fuel test (m.items p).next (if test p then put_memory false m p else m)
unfolding walk_put
walk_put-suc fuel test p m e = rw e refl

release_∷ :
    (test : Ptr → Bool) (x : Ptr) (xs : List Ptr) (q : Pool)
    → release test (x ∷ xs) q ≡ release test xs (if test x then Pool.put x q else q)
unfolding release
release_∷ test x xs q = refl

module _ (test : Ptr → Bool) where
  walk-Models :
      (fuel : ℕ) (kept xs : List Ptr) (q : Pool) (m : Mempool) (p : Ptr)
      → length xs ≤ fuel
      → p ≡ first xs
      → q.allocated ≡ kept ++ xs
      → Models m q
      → Models (walk_put fuel test p m) (release test xs q)
  walk-Models fuel kept [] q m p enough e a w = unfold release in (rw (e, first-null fuel test m) w)
  walk-Models zero kept (x ∷ xs) q m p enough e a w = absurd (omega (arith, enough))
  walk-Models (suc fuel) kept (x ∷ xs) q m p enough e a w =
      let linked : Chain m.items null m.allocateditems (kept ++ x ∷ xs) = rw (sym a) w.allocated in
      let once : Distinct (kept ++ x ∷ xs) = rw (sym a) w.allocated_once in
      let (ne, next) = Chain-successor m.items null m.allocateditems kept xs x linked in
      let set : (x == null) ≡ false = ground (arith, ne) in
      let out : has x kept ≡ false = Distinct-outside kept xs x once in
      let fewer : length xs ≤ fuel = omega (arith, enough) in
      rw (e, walk_put-suc fuel test x m set, release_∷ test x xs q)
        (elim (Bool-cases (test x)) [
          | inl t ↦
              let here : has x (kept ++ x ∷ xs) ≡ true =
                ground (arith, has-append x kept (x ∷ xs)) in
              rw t (
                walk-Models fuel kept xs (Pool.put x q) (put_memory false m x) (m.items x).next
                  fewer next (unfold Pool.put in (ap (remove x) a ∙ remove-append x kept xs out))
                  (put_memory-refines false m q x w (ap (has x) a ∙ here) refl))
          | inr t ↦ rw t (
              walk-Models fuel (kept ++ x ∷ []) xs q m (m.items x).next fewer next
                (a ∙ sym (append_assoc kept (x ∷ []) xs)) w)
        ])

  -- On a well-formed pool, with as many steps as there are allocated items, the loop through `next`
  -- puts back the items that pass the test, one after the other in the order of the list: it does
  -- on the linked lists what its description by lists does.
  pub walk_put-refines :
      (fuel : ℕ) (m : Mempool) (q : Pool)
      → Models m q
      → length q.allocated ≤ fuel
      → Models (walk_put fuel test m.allocateditems m) (release test q.allocated q)
  walk_put-refines fuel m q w enough =
      walk-Models fuel [] q.allocated q m m.allocateditems enough
        (head-first m.items null m.allocateditems q.allocated w.allocated) refl w
