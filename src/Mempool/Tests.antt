-- ===== src/Mempool/Tests.antt =====
-- The theorems on memory.c at pools of three items.
use mathlib.Core.List.{reverse}
use rmw_microxrcedds.Prelude.{
  ◌≡◌, refl, Bool, true, false, List, [], ◌∷◌, arith, ◌==◌, if◌then◌else◌,
}
use rmw_microxrcedds.Pool
use rmw_microxrcedds.Pool.{Pool, Call, gets, puts}
use rmw_microxrcedds.Mempool.{Item, Items, Mempool, Fresh, put_memory, get_memory, init_memory}
use rmw_microxrcedds.Mempool.Invariant.{IsPool}
use rmw_microxrcedds.Mempool.Refinement.{Models, to_option, put_memory-refines}
use rmw_microxrcedds.Mempool.Get.{get_memory-refines}
use rmw_microxrcedds.Mempool.Init.{AllBlank, init_memory-IsPool}
use rmw_microxrcedds.Mempool.Run.{run, run-refines}

abbrev blank_item : Item
blank_item = record { prev = 0; next = 0; contents = 0; is_dynamic_memory = false }

abbrev blank_pool : Mempool
blank_pool = record {
  items = λ p. blank_item;
  allocateditems = 0;
  freeitems = 0;
  element_size = 0;
  is_initialized = false;
  is_dynamic_allowed = false;
  mutex = 0;
  released = [];
}

three_blank : AllBlank (λ p. blank_item) (1 ∷ 2 ∷ 3 ∷ [])
three_blank = (
  record { ne_null = ground arith; prev = refl; next = refl; static = refl },
  (
    record { ne_null = ground arith; prev = refl; next = refl; static = refl },
    (record { ne_null = ground arith; prev = refl; next = refl; static = refl }, tt),
  ),
)

init_memory-IsPool_example :
    IsPool (init_memory false 8 (1 ∷ 2 ∷ 3 ∷ []) blank_pool) [] (reverse (1 ∷ 2 ∷ 3 ∷ []))
init_memory-IsPool_example =
    init_memory-IsPool false 8 blank_pool 1 (2 ∷ 3 ∷ []) refl three_blank (refl, (refl, (refl, tt)))

-- Items 2 and 1 are allocated, in this order; 2 is dynamic if `dynamic` is; 3 is free.
abbrev busy_items : Bool → Items
busy_items dynamic p =
    if p == 1
    then record { prev = 2; next = 0; contents = 1; is_dynamic_memory = false }
    else if p == 2
    then record { prev = 0; next = 1; contents = 20; is_dynamic_memory = dynamic }
    else record { prev = 0; next = 0; contents = 3; is_dynamic_memory = false }

abbrev busy_pool : Bool → Mempool
busy_pool dynamic = record {
  items = busy_items dynamic;
  allocateditems = 2;
  freeitems = 3;
  element_size = 8;
  is_initialized = true;
  is_dynamic_allowed = true;
  mutex = 0;
  released = [];
}

busy_pool-IsPool : (dynamic : Bool) → IsPool (busy_pool dynamic) (2 ∷ 1 ∷ []) (3 ∷ [])
busy_pool-IsPool dynamic = record {
  allocated = (refl, ground arith, refl, (refl, ground arith, refl, refl));
  free = (refl, ground arith, refl, refl);
  allocated_once = (refl, (refl, tt));
  free_once = (refl, tt);
  apart = λ a i. ground arith;
}

abbrev busy : Pool
busy = record { allocated = 2 ∷ 1 ∷ []; free = 3 ∷ [] }

abbrev new_item : Fresh
new_item = record { item = 9; contents = 90 }

put_memory-refines_example : Models (put_memory false (busy_pool false) 1) (Pool.put 1 busy)
put_memory-refines_example =
    put_memory-refines false (busy_pool false) busy 1 (busy_pool-IsPool false) refl refl

get_memory-refines_example :
    (to_option (get_memory false new_item (busy_pool false)).0 ≡ (Pool.get busy).0)
    × Models (get_memory false new_item (busy_pool false)).1 (Pool.get busy).1
get_memory-refines_example =
    get_memory-refines false new_item (busy_pool false) busy (busy_pool-IsPool false) refl

-- Item 1 is allocated, and no item is free.
abbrev full_pool : Mempool
full_pool = record (busy_pool false) {
  items = λ p. record blank_item { contents = p };
  allocateditems = 1;
  freeitems = 0;
}

full_pool-IsPool : IsPool full_pool (1 ∷ []) []
full_pool-IsPool = record {
  allocated = (refl, ground arith, refl, refl);
  free = refl;
  allocated_once = (refl, tt);
  free_once = tt;
  apart = λ a i. refl;
}

abbrev calls : List Call
calls = gets ∷ puts 1 ∷ gets ∷ gets ∷ puts 3 ∷ []

run-refines_example :
    Models (run (busy_pool false) calls) (Pool.run busy calls)
    × (Pool.size (Pool.run busy calls) ≡ Pool.size busy)
run-refines_example =
    run-refines (busy_pool false) busy calls (busy_pool-IsPool false)
      (unfold Pool.step Pool.get Pool.put Pool.take in (refl, (refl, tt)))
