-- ===== src/StaticBuffer/Clean.antt =====
-- `rmw_uxrce_clean_expired_static_input_buffer`: what stays, and what the test of age means.
use mathlib.Core.List.{reverse_aux, append_assoc}
use rmw_microxrcedds.Prelude.{
  ◌≡◌, refl, sym, ap, ◌∙◌, ◌⊎◌, ◌↔◌, inl, inr, Bool, true, false, List, [], ◌∷◌, ◌++◌, arith,
  Bool-cases, if◌then◌else◌, has, has-append, remove-append, Distinct,
}
use rmw_microxrcedds.Prelude.Int.{ℤ, pos, int64_max, add64, ◌≤ℤ◌, ◌<ℤ◌, ◌+ℤ◌, IsInt64, add64-+ℤ}
use rmw_microxrcedds.Pool
use rmw_microxrcedds.Types.{Ptr, Buffers, StaticInputBuffer, Owners, RmwTimeLibrary}
use rmw_microxrcedds.StaticBuffer.{
  put_buffer, owner_lifespan, buffer_lifespan, is_expired, clean_step, clean_loop,
  clean_expired_static_input_buffer,
}

-- The items that pass the test and those that fail it, in order.
abbrev pub select : (Ptr → Bool) → List Ptr → List Ptr
select p [] = []
select p (x ∷ xs) = if p x then x ∷ select p xs else select p xs

abbrev pub drop_if : (Ptr → Bool) → List Ptr → List Ptr
drop_if p [] = []
drop_if p (x ∷ xs) = if p x then drop_if p xs else x ∷ drop_if p xs

module _ (time : RmwTimeLibrary) (o : Owners) (now_ns : ℤ) where
  clean_step-old :
      (x : Ptr) (b : Buffers)
      → is_expired time o now_ns (b.slot x) ≡ true
      → clean_step time o now_ns x b ≡ put_buffer x b
  unfolding clean_step
  clean_step-old x b old = rw old

  clean_step-young :
      (x : Ptr) (b : Buffers)
      → is_expired time o now_ns (b.slot x) ≡ false
      → clean_step time o now_ns x b ≡ b
  unfolding clean_step
  clean_step-young x b young = rw young

  pub clean_loop-old :
      (x : Ptr) (xs : List Ptr) (b : Buffers)
      → is_expired time o now_ns (b.slot x) ≡ true
      → clean_loop time o now_ns (x ∷ xs) b ≡ clean_loop time o now_ns xs (put_buffer x b)
  unfolding clean_loop
  clean_loop-old x xs b old = ap (clean_loop time o now_ns xs) (clean_step-old x b old)

  pub clean_loop-young :
      (x : Ptr) (xs : List Ptr) (b : Buffers)
      → is_expired time o now_ns (b.slot x) ≡ false
      → clean_loop time o now_ns (x ∷ xs) b ≡ clean_loop time o now_ns xs b
  unfolding clean_loop
  clean_loop-young x xs b young = ap (clean_loop time o now_ns xs) (clean_step-young x b young)

  pub clean_loop-nil : (b : Buffers) → clean_loop time o now_ns [] b ≡ b
  unfolding clean_loop
  clean_loop-nil b = refl

  clean_loop-allocated :
      (b : Buffers) (kept xs : List Ptr)
      → b.memory.allocated ≡ kept ++ xs
      → Distinct xs
      → ((x : Ptr) → has x xs ≡ true → has x kept ≡ false)
      → let old = λ (x : Ptr). is_expired time o now_ns (b.slot x) in
        let after = clean_loop time o now_ns xs b in
        (after.memory.allocated ≡ kept ++ drop_if old xs)
        × (after.memory.free ≡ reverse_aux (select old xs) b.memory.free)
        × (after.slot ≡ b.slot)
  unfolding put_buffer Pool.put
  clean_loop-allocated b kept [] e d out = rw (clean_loop-nil b) (e, refl, refl)
  clean_loop-allocated b kept (x ∷ xs) e d out =
      elim (Bool-cases (is_expired time o now_ns (b.slot x))) [
        | inl old ↦
            let ih =
              clean_loop-allocated (put_buffer x b) kept xs
                (rw e (remove-append x kept xs (out x (ground arith)))) d.1
                (λ y i. out y (ground arith)) in
            rw (clean_loop-old x xs b old, old) ih
        | inr young ↦
            let ih =
              clean_loop-allocated b (kept ++ x ∷ []) xs (e ∙ sym (append_assoc kept (x ∷ []) xs))
                d.1 (λ y i. rw (has-append y kept (x ∷ [])) (ground (arith, out y))) in
            rw (clean_loop-young x xs b young, young) (rw (append_assoc kept (x ∷ [])) at ih)
      ]

  -- If the allocated buffers are distinct, cleaning keeps exactly the buffers that have not
  -- expired, in their order, puts the others back into the free pool, and changes no buffer's
  -- contents.
  pub clean_expired-drop_if :
      (b : Buffers)
      → Distinct b.memory.allocated
      → let old = λ (x : Ptr). is_expired time o now_ns (b.slot x) in
        let after = clean_expired_static_input_buffer time o now_ns b in
        (after.memory.allocated ≡ drop_if old b.memory.allocated)
        × (after.memory.free ≡ reverse_aux (select old b.memory.allocated) b.memory.free)
        × (after.slot ≡ b.slot)
  unfolding clean_expired_static_input_buffer
  clean_expired-drop_if b d = clean_loop-allocated b [] b.memory.allocated refl d (λ x i. refl)

  -- Where the time of expiry is an `int64_t`, a buffer has expired exactly when that time is over
  -- or the buffer is stamped in the future.
  pub is_expired_iff :
      (d : StaticInputBuffer)
      → let lifespan = time.rmw_time_total_nsec (buffer_lifespan time o d) in
        IsInt64 (d.timestamp +ℤ lifespan)
        → (is_expired time o now_ns d ≡ true)
          ↔ ((d.timestamp +ℤ lifespan <ℤ now_ns) ⊎ (now_ns <ℤ d.timestamp))
  unfolding is_expired
  is_expired_iff d fits =
      rw (add64-+ℤ d.timestamp (time.rmw_time_total_nsec (buffer_lifespan time o d)) fits)
        (ground arith)

  -- A message with a positive time stamp whose owner asks for an infinite lifespan has expired at
  -- any time that is not negative, where the library tells infinite from unspecified and takes the
  -- largest `int64_t` for its nanoseconds: the sum wraps round to a negative number.
  pub infinite_lifespan_expires :
      (d : StaticInputBuffer)
      → owner_lifespan o d.entity_type d.owner ≡ time.duration_infinite
      → time.rmw_time_equal time.duration_infinite time.duration_unspecified ≡ false
      → time.rmw_time_total_nsec time.duration_infinite ≡ int64_max
      → pos 0 <ℤ d.timestamp
      → d.timestamp ≤ℤ int64_max
      → pos 0 ≤ℤ now_ns
      → is_expired time o now_ns d ≡ true
  unfolding is_expired buffer_lifespan add64
  infinite_lifespan_expires d asks differ saturates stamped fits later = ground arith
