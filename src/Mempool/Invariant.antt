-- ===== src/Mempool/Invariant.antt =====
-- The well-formed pools of memory.c, and the writes of its functions on them.
use rmw_microxrcedds.Prelude.{
  ◌≡◌, ◌≢◌, ◌⊎◌, inl, inr, true, false, List, ◌∷◌, arith, Bool-cases, ◌==◌, if◌then◌else◌, has,
  Distinct, Apart, remove, has-remove_le, Distinct-remove,
}
use rmw_microxrcedds.Mempool.{lock, unlock, Items, Ptr, null, Mempool, unlink, push_free, take_free}
use rmw_microxrcedds.Mempool.Chain.{
  Chain, SameLinks, Unlinks, Chain-frame, Chain-cons, Chain-relabel, Chain-first, Chain-null,
  Chain-prev_ne, Chain-prev, Chain-next, Chain-remove,
}

-- The pool's two lists are `xs` (allocated) and `ys` (free): null-terminated, linked both ways,
-- without repetition, and no item is in both.
pub record IsPool (m : Mempool) (xs ys : List Ptr) : Type 0 where
  pub allocated : Chain m.items null m.allocateditems xs
  pub free : Chain m.items null m.freeitems ys
  pub allocated_once : Distinct xs
  pub free_once : Distinct ys
  pub apart : Apart xs ys

Apart-remove : (p : Ptr) (xs ys : List Ptr) → Apart xs ys → Apart (remove p xs) ys
Apart-remove p xs ys apart a i = elim (Bool-cases (has a xs)) [
  | inl old ↦ apart a old
  | inr new ↦ absurd (ground (arith, has-remove_le a p xs new))
]

module _ (m : Mempool) (xs ys : List Ptr) (p : Ptr) (w : IsPool m xs ys) where
  module _ (i : has p xs ≡ true) where
    outside : has null xs ≡ false
    outside = Chain-null m.items null m.allocateditems xs w.allocated

    prev-ne : (m.items p).prev ≢ p
    prev-ne =
        Chain-prev_ne m.items null m.allocateditems xs p w.allocated_once outside w.allocated i

    unlink-Unlinks : Unlinks m.items (unlink p m).items (m.items p).prev (m.items p).next
    unfolding unlink
    unlink-Unlinks = record {
      next_same = λ q ne. ground (arith, prev-ne);
      prev_same = λ q ne. ground (arith, prev-ne);
      next_new = λ ne. ground (arith, prev-ne);
      prev_new = λ ne. ground (arith, prev-ne);
    }

    -- An item of the other list is no neighbour of `p`.
    neighbours : (a : Ptr) → has a ys ≡ true → (a ≢ (m.items p).prev) × (a ≢ (m.items p).next)
    neighbours a j = ground (
      arith,
      Chain-prev m.items null m.allocateditems xs p w.allocated i,
      Chain-next m.items null m.allocateditems xs p w.allocated i,
      Chain-null m.items null m.freeitems ys w.free,
      w.apart (m.items p).prev,
      w.apart (m.items p).next,
    )

    unlink_head :
        (unlink p m).allocateditems
        ≡ (if m.allocateditems == p then (m.items p).next else m.allocateditems)
    unfolding unlink
    unlink_head = ground (arith, prev-ne)

    -- Unlinking an allocated item takes it out of the allocated pool, and no more.
    pub unlink-IsPool : IsPool (unlink p m) (remove p xs) ys
    unfolding unlink
    unlink-IsPool = record {
      allocated = rw unlink_head (
          Chain-remove m.items (unlink p m).items p unlink-Unlinks null m.allocateditems xs
            w.allocated_once outside i w.allocated);
      free =
          Chain-frame m.items (unlink p m).items null m.freeitems ys
            (λ a j.
              let s = neighbours a j in
              (unlink-Unlinks.prev_same a s.1, unlink-Unlinks.next_same a s.0))
            w.free;
      allocated_once = Distinct-remove p xs w.allocated_once;
      free_once = w.free_once;
      apart = Apart-remove p xs ys w.apart;
    }

  module _ (out : has p xs ≡ false) (away : has p ys ≡ false) (ne : p ≢ null) where
    first : (m.freeitems ≡ null) ⊎ (has m.freeitems ys ≡ true)
    first = Chain-first m.items null m.freeitems ys w.free

    -- An item of neither list becomes the first free one.
    pub push_free-IsPool : IsPool (push_free p m) xs (p ∷ ys)
    unfolding push_free
    push_free-IsPool = record {
      allocated =
          Chain-frame m.items (push_free p m).items null m.allocateditems xs
            (λ a i.
              ground (
                arith,
                first,
                w.apart a i,
                Chain-null m.items null m.allocateditems xs w.allocated,
              ))
            w.allocated;
      free =
          Chain-cons (push_free p m).items null p m.freeitems ys ne (ground arith)
            (ground (arith, first))
            (Chain-relabel m.items (push_free p m).items null p m.freeitems ys w.free_once
              (λ q i. ground (arith, first)) (λ q i far. ground (arith, first))
              (λ some. ground (arith, first)) w.free);
      allocated_once = w.allocated_once;
      free_once = (away, w.free_once);
      apart = λ a i. ground (arith, w.apart a);
    }

module _ (m : Mempool) (xs ys : List Ptr) (p : Ptr) (w : IsPool m xs (p ∷ ys)) where
  used : (m.allocateditems ≡ null) ⊎ (has m.allocateditems xs ≡ true)
  used = Chain-first m.items null m.allocateditems xs w.allocated

  left : ((m.items p).next ≡ null) ⊎ (has (m.items p).next ys ≡ true)
  left = Chain-first m.items p (m.items p).next ys w.free.3

  new_apart : has p xs ≡ false
  new_apart = elim (Bool-cases (has p xs)) [
    | inl both ↦ absurd (ground (arith, w.apart p both))
    | inr out ↦ out
  ]

  unused : (a : Ptr) → has a ys ≡ true → has a xs ≡ false
  unused a j = elim (Bool-cases (has a xs)) [
    | inl both ↦ absurd (ground (arith, w.apart a both))
    | inr out ↦ out
  ]

  taken_next : ((take_free m).1.items p).next ≡ m.allocateditems
  unfolding take_free
  taken_next = ground (arith, used, new_apart)

  taken_allocated : Chain (take_free m).1.items p m.allocateditems xs
  unfolding take_free
  taken_allocated =
      Chain-relabel m.items (take_free m).1.items null p m.allocateditems xs w.allocated_once
        (λ q i. ground (arith, new_apart))
        (λ q i far. ground (arith, new_apart, left, unused (m.items p).next))
        (λ some. ground (arith, used, new_apart)) w.allocated

  taken_free : Chain (take_free m).1.items null (m.items p).next ys
  unfolding take_free
  taken_free =
      Chain-relabel m.items (take_free m).1.items p null (m.items p).next ys w.free_once.1
        (λ q i. ground arith) (λ q i far. ground (arith, used, w.apart m.allocateditems))
        (λ some. ground (arith, left, used, w.apart m.allocateditems)) w.free.3

  taken_prev : ((take_free m).1.items p).prev ≡ null
  unfolding take_free
  taken_prev = ground arith

  taken_allocateditems : (take_free m).1.allocateditems ≡ p
  unfolding take_free
  taken_allocateditems = w.free.0

  taken_freeitems : (take_free m).1.freeitems ≡ (m.items p).next
  unfolding take_free
  taken_freeitems = ground arith

  taken_item : (take_free m).0 ≡ p
  unfolding take_free
  taken_item = w.free.0

  -- The first free item becomes the first allocated one.
  pub take_free-IsPool : ((take_free m).0 ≡ p) × IsPool (take_free m).1 (p ∷ xs) ys
  take_free-IsPool = (
    taken_item,
    record {
      allocated = (taken_allocateditems, w.free.1, taken_prev, rw taken_next taken_allocated);
      free = rw taken_freeitems taken_free;
      allocated_once = (new_apart, w.allocated_once);
      free_once = w.free_once.1;
      apart = λ a i. ground (arith, w.apart a);
    },
  )

-- The lists do not depend on the lock.
pub lock-IsPool : (m : Mempool) (xs ys : List Ptr) → IsPool m xs ys → IsPool (lock m) xs ys
lock-IsPool m xs ys w = record {
  allocated = w.allocated;
  free = w.free;
  allocated_once = w.allocated_once;
  free_once = w.free_once;
  apart = w.apart;
}

pub unlock-IsPool : (m : Mempool) (xs ys : List Ptr) → IsPool m xs ys → IsPool (unlock m) xs ys
unlock-IsPool m xs ys w = record {
  allocated = w.allocated;
  free = w.free;
  allocated_once = w.allocated_once;
  free_once = w.free_once;
  apart = w.apart;
}

-- The lists depend on the links only.
pub items-IsPool :
    (m : Mempool) (g : Items) (xs ys : List Ptr)
    → ((a : Ptr) → SameLinks m.items g a)
    → IsPool m xs ys
    → IsPool (record m { items = g }) xs ys
items-IsPool m g xs ys same w = record {
  allocated = Chain-frame m.items g null m.allocateditems xs (λ a i. same a) w.allocated;
  free = Chain-frame m.items g null m.freeitems ys (λ a i. same a) w.free;
  allocated_once = w.allocated_once;
  free_once = w.free_once;
  apart = w.apart;
}

module _ (m : Mempool) (xs ys : List Ptr) (p : Ptr) (w : IsPool m xs ys) (ne : p ≢ null)
    (out : has p xs ≡ false) (back : (m.items p).prev ≡ null)
    (forth : (m.items p).next ≡ null) where
  unlink_new-links : (q : Ptr) → SameLinks m.items (unlink p m).items q
  unfolding unlink
  unlink_new-links q = (ground arith, ground arith)

  unlink_new_head : (unlink p m).allocateditems ≡ m.allocateditems
  unfolding unlink
  unlink_new_head = ground (arith, Chain-first m.items null m.allocateditems xs w.allocated)

  -- Unlinking an item that has no neighbours and is not allocated changes no list.
  pub unlink_new-IsPool : IsPool (unlink p m) xs ys
  unfolding unlink
  unlink_new-IsPool = record {
    allocated = rw unlink_new_head (
        Chain-frame m.items (unlink p m).items null m.allocateditems xs (λ a i. unlink_new-links a)
          w.allocated);
    free =
        Chain-frame m.items (unlink p m).items null m.freeitems ys (λ a i. unlink_new-links a)
          w.free;
    allocated_once = w.allocated_once;
    free_once = w.free_once;
    apart = w.apart;
  }
