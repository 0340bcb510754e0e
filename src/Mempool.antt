-- ===== src/Mempool.antt =====
-- The memory pools of rmw_microxrcedds_c/src/memory.c: two doubly linked lists through the items.
pub mod Chain
pub mod Invariant
pub mod Refinement
pub mod Get
pub mod Init
pub mod Release
pub mod DoublePut
pub mod Run
pub mod Walk
mod Tests
use rmw_microxrcedds.Prelude.{
  ℕ, zero, suc, ◌+◌, ◌-◌, Bool, true, false, not, ◌&&◌, List, [], ◌∷◌, ◌==◌, if◌then◌else◌,
}

abbrev pub Ptr : Type 0
Ptr = ℕ

abbrev pub null : Ptr
null = 0

-- `rmw_uxrce_mempool_item_t`. `contents` is its `data` pointer.
pub record Item : Type 0 where
  pub prev : Ptr
  pub next : Ptr
  pub contents : Ptr
  pub is_dynamic_memory : Bool

abbrev pub Items : Type 0
Items = Ptr → Item

-- `rmw_uxrce_mempool_t` with the memory that holds the items. `mutex` is the depth of the
-- recursive mutex, and `released` the pointers given to `rmw_free`, the last one first.
pub record Mempool : Type 0 where
  pub items : Items
  pub allocateditems : Ptr
  pub freeitems : Ptr
  pub element_size : ℕ
  pub is_initialized : Bool
  pub is_dynamic_allowed : Bool
  pub mutex : ℕ
  pub released : List Ptr

abbrev pub write : Items → Ptr → Item → Items
write h p i q = if p == q then i else h q

-- Assignments through a pointer to an item.
abbrev pub set_next : Ptr → Ptr → Items → Items
set_next p q h = write h p (record (h p) { next = q })

abbrev pub set_prev : Ptr → Ptr → Items → Items
set_prev p q h = write h p (record (h p) { prev = q })

abbrev pub set_dynamic : Ptr → Items → Items
set_dynamic p h = write h p (record (h p) { is_dynamic_memory = true })

-- `if (p) { p->next = q; }` and `if (p) { p->prev = q; }`
abbrev pub set_next_of : Ptr → Ptr → Items → Items
set_next_of p q h = if p == null then h else set_next p q h

abbrev pub set_prev_of : Ptr → Ptr → Items → Items
set_prev_of p q h = if p == null then h else set_prev p q h

abbrev pub lock : Mempool → Mempool
lock m = record m { mutex = m.mutex + 1 }

abbrev pub unlock : Mempool → Mempool
unlock m = record m { mutex = m.mutex - 1 }

-- It locks and unlocks: the pool stays as it is.
pub has_memory : Mempool → Bool
has_memory m = not (m.freeitems == null)

-- The item leaves its neighbours, and the head of the allocated pool if it stands there.
pub unlink : Ptr → Mempool → Mempool
unlink item m =
    let h₁ = set_next_of (m.items item).prev (m.items item).next m.items in
    let h₂ = set_prev_of (h₁ item).next (h₁ item).prev h₁ in
    record m {
      items = h₂;
      allocateditems = if m.allocateditems == item then (h₂ item).next else m.allocateditems;
    }

-- The item becomes the head of the free pool.
pub push_free : Ptr → Mempool → Mempool
push_free item m =
    let h₁ = set_next item m.freeitems m.items in
    let h₂ = set_prev_of (h₁ item).next item h₁ in
    record m { items = set_prev item null h₂; freeitems = item }

-- `dynamic` says whether RMW_UXRCE_ALLOW_DYNAMIC_ALLOCATIONS is defined. A dynamic item is
-- released, and the function returns before its unlock.
pub put_memory : Bool → Mempool → Ptr → Mempool
put_memory dynamic m item =
    let m₁ = unlink item (lock m) in
    if dynamic && (m₁.items item).is_dynamic_memory
    then record m₁ { released = item ∷ (m₁.items item).contents ∷ m₁.released }
    else unlock (push_free item m₁)

-- The first branch of `get_memory`: the head of the free pool goes to the allocated pool.
pub take_free : Mempool → Ptr × Mempool
take_free m =
    let item = m.freeitems in
    let free = (m.items item).next in
    let h₁ = set_prev_of free null m.items in
    let h₂ = set_next item m.allocateditems h₁ in
    let h₃ = set_prev_of (h₂ item).next item h₂ in
    (item, record m { items = set_prev item null h₃; freeitems = free; allocateditems = item })

abbrev dynamic_item : Ptr → Item
dynamic_item contents = record {
  prev = null;
  next = null;
  contents = contents;
  is_dynamic_memory = false;
}

-- What two calls of `rmw_allocate` return.
pub record Fresh : Type 0 where
  pub item : Ptr
  pub contents : Ptr

-- The new item goes through the free pool, marked dynamic only afterwards.
pub add_dynamic : Fresh → Mempool → Mempool
add_dynamic fresh m =
    let m₁ = record m { items = write m.items fresh.item (dynamic_item fresh.contents) } in
    let m₂ = put_memory true m₁ fresh.item in record m₂ { items = set_dynamic fresh.item m₂.items }

-- `get_memory` with a bound on the depth of its call of itself.
pub get_memory_within : ℕ → Bool → Fresh → Mempool → Ptr × Mempool
get_memory_within zero dynamic fresh m = (null, m)
get_memory_within (suc depth) dynamic fresh m =
    let m₁ = lock m in
    let again = get_memory_within depth dynamic fresh (add_dynamic fresh m₁) in
    let (item, m₂) =
      if has_memory m₁
      then take_free m₁
      else if m₁.is_dynamic_allowed && dynamic
      then again
      else (null, m₁) in
    (item, unlock m₂)

-- After the allocation there is memory, so the call in the call is the last one.
pub get_memory : Bool → Fresh → Mempool → Ptr × Mempool
get_memory dynamic fresh m = get_memory_within 2 dynamic fresh m

-- One round of RMW_INIT_MEMORY: the address of `array[i].mem` stands for that of `array[i]`.
pub init_item : Bool → Mempool → Ptr → Mempool
init_item dynamic m p =
    let m₁ = put_memory dynamic m p in
    record m₁ {
      items = write m₁.items p (record (m₁.items p) { contents = p; is_dynamic_memory = false });
    }

pub init_items : Bool → Mempool → List Ptr → Mempool
init_items dynamic m [] = m
init_items dynamic m (p ∷ ps) = init_items dynamic (init_item dynamic m p) ps

-- The pool's fields before the loop of RMW_INIT_MEMORY. UXR_INIT_LOCK makes the mutex anew.
abbrev pub start_pool : ℕ → Mempool → Mempool
start_pool element_size m = record m {
  is_initialized = true;
  element_size = element_size;
  allocateditems = null;
  freeitems = null;
  is_dynamic_allowed = true;
  mutex = 0;
}

-- RMW_INIT_MEMORY over the addresses of the array's items: an empty array is `size` 0.
pub init_memory : Bool → ℕ → List Ptr → Mempool → Mempool
init_memory dynamic element_size [] m = m
init_memory dynamic element_size (p ∷ ps) m =
    if m.is_initialized then m else init_items dynamic (start_pool element_size m) (p ∷ ps)
