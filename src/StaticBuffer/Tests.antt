-- ===== src/StaticBuffer/Tests.antt =====
-- The theorems on the static input buffers at a pool of four buffers.
use mathlib.Core.List.{reverse_aux}
use rmw_microxrcedds.Prelude.{
  ◌≡◌, refl, ◌⊎◌, true, false, none, some, [], ◌∷◌, arith, ◌==◌, if◌then◌else◌,
}
use rmw_microxrcedds.Prelude.Int.{pos, int64_max, ◌<ℤ◌, ◌+ℤ◌, IsInt64}
use rmw_microxrcedds.Types.{Ptr}
use rmw_microxrcedds.StaticBuffer.{
  find_static_input_buffer_by_owner, buffer_lifespan, owner_lifespan, is_expired,
  clean_expired_static_input_buffer,
}
use rmw_microxrcedds.StaticBuffer.Find.{NoneBefore, IsOldest, find-IsOldest}
use rmw_microxrcedds.Mempool.{Mempool}
use rmw_microxrcedds.Mempool.Invariant.{IsPool}
use rmw_microxrcedds.Mempool.Refinement.{Models}
use rmw_microxrcedds.StaticBuffer.Heap.{clean_items, clean_items-refines}
use rmw_microxrcedds.StaticBuffer.Clean.{select, drop_if, clean_expired-drop_if}
use rmw_microxrcedds.Samples.{time, owners, sample, two_samples, ten_seconds, later}

sample_fits : IsInt64 (
    pos 1000000000
    +ℤ time.rmw_time_total_nsec (buffer_lifespan time (owners ten_seconds) (sample 1)))
unfolding buffer_lifespan owner_lifespan ◌+ℤ◌
sample_fits = (ground arith, ground arith)

find-IsOldest_example :
    ((find_static_input_buffer_by_owner two_samples 40 ≡ none)
      × NoneBefore sample 40 (2 ∷ 1 ∷ []) int64_max)
    ⊎ ((y : Ptr) × (find_static_input_buffer_by_owner two_samples 40 ≡ some y)
        × IsOldest sample 40 (2 ∷ 1 ∷ []) y
        × ((sample y).timestamp <ℤ int64_max))
find-IsOldest_example = find-IsOldest two_samples 40

clean_expired-drop_if_example :
    let o = owners ten_seconds in
    let old = λ (x : Ptr). is_expired time o later (sample x) in
    let after = clean_expired_static_input_buffer time o later two_samples in
    (after.memory.allocated ≡ drop_if old (2 ∷ 1 ∷ []))
    × (after.memory.free ≡ reverse_aux (select old (2 ∷ 1 ∷ [])) (3 ∷ 4 ∷ []))
    × (after.slot ≡ sample)
clean_expired-drop_if_example =
    clean_expired-drop_if time (owners ten_seconds) later two_samples (refl, (refl, tt))

-- The pool of the two samples as linked items.
abbrev linked_samples : Mempool
linked_samples = record {
  items = λ p. record {
    prev = if (p == 1) then 2 else if (p == 4) then 3 else 0;
    next = if (p == 2) then 1 else if (p == 3) then 4 else 0;
    contents = p;
    is_dynamic_memory = false;
  };
  allocateditems = 2;
  freeitems = 3;
  element_size = 8;
  is_initialized = true;
  is_dynamic_allowed = false;
  mutex = 0;
  released = [];
}

linked_samples-IsPool : IsPool linked_samples (2 ∷ 1 ∷ []) (3 ∷ 4 ∷ [])
linked_samples-IsPool = record {
  allocated = (refl, ground arith, refl, (refl, ground arith, refl, refl));
  free = (refl, ground arith, refl, (refl, ground arith, refl, refl));
  allocated_once = (refl, (refl, tt));
  free_once = (refl, (refl, tt));
  apart = λ a i. ground arith;
}

clean_items-refines_example :
    Models
      (clean_items time (owners ten_seconds) later 2 sample linked_samples)
      (clean_expired_static_input_buffer time (owners ten_seconds) later two_samples).memory
clean_items-refines_example =
    clean_items-refines time (owners ten_seconds) later 2 two_samples linked_samples
      linked_samples-IsPool (omega arith)
