-- ===== src/StaticBuffer/Find.antt =====
-- `rmw_uxrce_find_static_input_buffer_by_owner` against the oldest buffer of an owner.
use rmw_microxrcedds.Prelude.{
  ◌≡◌, refl, ◌⊎◌, inl, inr, true, ◌&&◌, Option, none, some, List, [], ◌∷◌, arith, Bool-cases, ◌==◌,
  has,
}
use rmw_microxrcedds.Prelude.Int.{ℤ, int64_max, ltb_ℤ, ◌≤ℤ◌, ◌<ℤ◌}
use rmw_microxrcedds.Types.{Ptr, Buffers}
use rmw_microxrcedds.StaticBuffer.{Slots, find_loop, find_static_input_buffer_by_owner}

-- Every buffer of the owner in the list is at least as young as `t`.
abbrev pub NoneBefore : Slots → Ptr → List Ptr → ℤ → Type 0
NoneBefore slot owner xs t =
    (x : Ptr) → has x xs ≡ true → (slot x).owner ≡ owner → t ≤ℤ (slot x).timestamp

-- `y` is a buffer of the owner in the list, and none of them is older.
pub record IsOldest (slot : Slots) (owner : Ptr) (xs : List Ptr) (y : Ptr) : Type 0 where
  pub listed : has y xs ≡ true
  pub owned : (slot y).owner ≡ owner
  pub oldest : NoneBefore slot owner xs (slot y).timestamp

-- What the loop makes of its variables.
abbrev Scanned : Slots → Ptr → List Ptr → Option Ptr → ℤ → Option Ptr → Type 0
Scanned slot owner xs ret min_time r =
    ((r ≡ ret) × NoneBefore slot owner xs min_time)
    ⊎ ((y : Ptr) × (r ≡ some y) × IsOldest slot owner xs y × ((slot y).timestamp <ℤ min_time))

find_loop-Scanned :
    (slot : Slots) (owner : Ptr) (xs : List Ptr) (ret : Option Ptr) (min_time : ℤ)
    → Scanned slot owner xs ret min_time (find_loop slot owner xs ret min_time)
unfolding find_loop
find_loop-Scanned slot owner [] ret min_time = inl (refl, λ x i. absurd (ground arith))
find_loop-Scanned slot owner (x ∷ xs) ret min_time =
    elim (Bool-cases ((slot x).owner == owner && ltb_ℤ (slot x).timestamp min_time)) [
      | inl older ↦ rw older (elim (find_loop-Scanned slot owner xs (some x) (slot x).timestamp) [
        | inl (e, later) ↦ inr (
          x,
          e,
          record {
            listed = ground arith;
            owned = ground arith;
            oldest = λ z i o. ground (arith, later z);
          },
          ground arith,
        )
        | inr (y, e, w, lt) ↦ inr (
          y,
          e,
          record {
            listed = ground (arith, w.listed);
            owned = w.owned;
            oldest = λ z i o. ground (arith, w.oldest z);
          },
          ground arith,
        )
      ])
      | inr newer ↦ rw newer (elim (find_loop-Scanned slot owner xs ret min_time) [
        | inl (e, later) ↦ inl (e, λ z i o. ground (arith, later z))
        | inr (y, e, w, lt) ↦ inr (
          y,
          e,
          record {
            listed = ground (arith, w.listed);
            owned = w.owned;
            oldest = λ z i o. ground (arith, w.oldest z);
          },
          lt,
        )
      ])
    ]

-- The search returns an oldest buffer of the owner. It returns none exactly when the owner has no
-- buffer with a time stamp before the largest `int64_t`.
pub find-IsOldest :
    (b : Buffers) (owner : Ptr)
    → ((find_static_input_buffer_by_owner b owner ≡ none)
        × NoneBefore b.slot owner b.memory.allocated int64_max)
      ⊎ ((y : Ptr) × (find_static_input_buffer_by_owner b owner ≡ some y)
          × IsOldest b.slot owner b.memory.allocated y
          × ((b.slot y).timestamp <ℤ int64_max))
unfolding find_static_input_buffer_by_owner
find-IsOldest b owner = find_loop-Scanned b.slot owner b.memory.allocated none int64_max
