-- ===== src/StaticBuffer/Heap.antt =====
-- `rmw_uxrce_clean_expired_static_input_buffer` of types.c (rmw_microxrcedds_c/src) on the linked
-- items of its pool, in the build without dynamic allocation.
use rmw_microxrcedds.Prelude.{ℕ, ◌≤◌, ◌≡◌, sym, ap, inl, inr, List, [], ◌∷◌, Bool-cases, length}
use rmw_microxrcedds.Prelude.Int.{ℤ}
use rmw_microxrcedds.Types.{Ptr, Buffers, StaticInputBuffer, Owners, RmwTimeLibrary}
use rmw_microxrcedds.Mempool.{Mempool}
use rmw_microxrcedds.Mempool.Refinement.{Models}
use rmw_microxrcedds.Mempool.Walk.{walk_put, release, walk_put-refines}
use rmw_microxrcedds.StaticBuffer.{
  put_buffer, is_expired, clean_loop, clean_expired_static_input_buffer,
}
use rmw_microxrcedds.StaticBuffer.Clean.{clean_loop-old, clean_loop-young, clean_loop-nil}

module _ (time : RmwTimeLibrary) (o : Owners) (now_ns : ℤ) where
  -- The loop over the linked items, whose data are in `slot`.
  unfoldable pub clean_items : ℕ → (Ptr → StaticInputBuffer) → Mempool → Mempool
  clean_items fuel slot m =
      walk_put fuel (λ x. is_expired time o now_ns (slot x)) m.allocateditems m

  release-clean_loop :
      (xs : List Ptr) (b : Buffers)
      → release (λ x. is_expired time o now_ns (b.slot x)) xs b.memory
        ≡ (clean_loop time o now_ns xs b).memory
  unfolding release put_buffer
  release-clean_loop [] b = ap Buffers.memory (sym (clean_loop-nil time o now_ns b))
  release-clean_loop (x ∷ xs) b = elim (Bool-cases (is_expired time o now_ns (b.slot x))) [
    | inl e ↦ rw (e, clean_loop-old time o now_ns x xs b e) (release-clean_loop xs (put_buffer x b))
    | inr e ↦ rw (e, clean_loop-young time o now_ns x xs b e) (release-clean_loop xs b)
  ]

  -- With as many steps as there are allocated buffers, the loop through the linked items leaves a
  -- well-formed pool, whose lists are those that the description of the loop by lists leaves.
  pub clean_items-refines :
      (fuel : ℕ) (b : Buffers) (m : Mempool)
      → Models m b.memory
      → length b.memory.allocated ≤ fuel
      → Models
          (clean_items fuel b.slot m)
          (clean_expired_static_input_buffer time o now_ns b).memory
  unfolding clean_items clean_expired_static_input_buffer
  clean_items-refines fuel b m w enough =
      rw (sym (release-clean_loop b.memory.allocated b))
        (walk_put-refines (λ x. is_expired time o now_ns (b.slot x)) fuel m b.memory w enough)
