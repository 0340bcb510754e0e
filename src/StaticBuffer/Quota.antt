-- ===== src/StaticBuffer/Quota.antt =====
-- How many buffers an entity owns, and the buffers that it may get.
use rmw_microxrcedds.Prelude.{
  ℕ, ◌+◌, ◌<◌, ◌≡◌, refl, ◌∙◌, ◌⊎◌, inl, inr, true, Option, none, some, List, [], ◌∷◌, arith,
  Bool-cases, ◌==◌, if◌then◌else◌,
}
use rmw_microxrcedds.Pool
use rmw_microxrcedds.Pool.{Pool}
use rmw_microxrcedds.Types.{Ptr, QosProfile, HistoryPolicy, Buffers}
use rmw_microxrcedds.StaticBuffer.{
  Slots, count_loop, count_static_input_buffer_for_entity, get_buffer, has_quota, get_keep_last,
  get_keep_all, get_by_history, get_static_input_buffer_for_entity,
}
use rmw_microxrcedds.StaticBuffer.Find.{IsOldest, find-IsOldest}

-- The number of buffers in the list that the entity owns.
abbrev pub owned : Slots → Ptr → List Ptr → ℕ
owned slot entity [] = 0
owned slot entity (x ∷ xs) = (if (slot x).owner == entity then 1 else 0) + owned slot entity xs

count_loop-owned :
    (slot : Slots) (entity : Ptr) (xs : List Ptr) (count : ℕ)
    → count_loop slot entity xs count ≡ count + owned slot entity xs
unfolding count_loop
count_loop-owned slot entity [] count = omega arith
count_loop-owned slot entity (x ∷ xs) count =
    count_loop-owned slot entity xs (if (slot x).owner == entity then count + 1 else count)
    ∙ ground arith

-- The loop counts the allocated buffers of the entity.
pub count-owned :
    (b : Buffers) (entity : Ptr)
    → count_static_input_buffer_for_entity b entity ≡ owned b.slot entity b.memory.allocated
unfolding count_static_input_buffer_for_entity
count-owned b entity = count_loop-owned b.slot entity b.memory.allocated 0 ∙ omega arith

-- The entity may own one more buffer. Depth 0 sets no bound.
abbrev pub IsWithin : Buffers → Ptr → QosProfile → Type 0
IsWithin b entity qos = (qos.depth ≡ 0) ⊎ (owned b.slot entity b.memory.allocated < qos.depth)

has_quota-IsWithin :
    (b : Buffers) (entity : Ptr) (qos : QosProfile)
    → has_quota b entity qos ≡ true
    → IsWithin b entity qos
unfolding has_quota
has_quota-IsWithin b entity qos h = ground (arith, count-owned b entity)

abbrev pub Response : Type 0
Response = Option Ptr × Buffers

-- No buffer, and nothing changes.
abbrev pub GotNone : Buffers → Response → Type 0
GotNone b r = r ≡ (none, b)

-- The first free buffer, within the entity's quota.
abbrev pub GotFree : Buffers → Ptr → QosProfile → Response → Type 0
GotFree b entity qos r =
    (y : Ptr) × (ys : List Ptr) × (b.memory.free ≡ y ∷ ys)
    × IsWithin b entity qos
    × (r ≡ (some y, record b { memory = record { allocated = y ∷ b.memory.allocated; free = ys } }))

-- The entity's oldest buffer, which is to be written over.
abbrev pub GotOldest : Buffers → Ptr → Response → Type 0
GotOldest b entity r = (y : Ptr) × IsOldest b.slot entity b.memory.allocated y × (r ≡ (some y, b))

take-cases :
    (b : Buffers) (entity : Ptr) (qos : QosProfile) (ys : List Ptr)
    → IsWithin b entity qos
    → b.memory.free ≡ ys
    → GotNone b (get_buffer b) ⊎ GotFree b entity qos (get_buffer b)
unfolding get_buffer Pool.get
take-cases b entity qos [] within e = inl (ground arith)
take-cases b entity qos (y ∷ ys) within e = inr (y, ys, e, within, ground arith)

get_keep_last-cases :
    (b : Buffers) (entity : Ptr) (qos : QosProfile)
    → GotNone b (get_keep_last b entity qos)
      ⊎ GotFree b entity qos (get_keep_last b entity qos)
      ⊎ GotOldest b entity (get_keep_last b entity qos)
unfolding get_keep_last
get_keep_last-cases b entity qos = elim (Bool-cases (has_quota b entity qos)) [
  | inl quota ↦
      rw quota
        (elim (take-cases b entity qos b.memory.free (has_quota-IsWithin b entity qos quota) refl) [
          | inl e ↦ inl e
          | inr e ↦ inr (inl e)
        ])
  | inr full ↦ rw full (elim (find-IsOldest b entity) [
    | inl (e, _) ↦ inl (rw e)
    | inr (y, e, oldest, _) ↦ inr (inr (y, oldest, rw e))
  ])
]

get_keep_all-cases :
    (b : Buffers) (entity : Ptr) (qos : QosProfile)
    → GotNone b (get_keep_all b entity qos) ⊎ GotFree b entity qos (get_keep_all b entity qos)
unfolding get_keep_all
get_keep_all-cases b entity qos = elim (Bool-cases (has_quota b entity qos)) [
  | inl quota ↦
      rw quota (take-cases b entity qos b.memory.free (has_quota-IsWithin b entity qos quota) refl)
  | inr full ↦ rw full (inl refl)
]

get_by_history-cases :
    (history : HistoryPolicy) (b : Buffers) (entity : Ptr) (qos : QosProfile)
    → GotNone b (get_by_history history b entity qos)
      ⊎ GotFree b entity qos (get_by_history history b entity qos)
      ⊎ GotOldest b entity (get_by_history history b entity qos)
unfolding get_by_history
get_by_history-cases HistoryPolicy.unknown b entity qos = get_keep_last-cases b entity qos
get_by_history-cases HistoryPolicy.system_default b entity qos = get_keep_last-cases b entity qos
get_by_history-cases HistoryPolicy.keep_last b entity qos = get_keep_last-cases b entity qos
get_by_history-cases HistoryPolicy.keep_all b entity qos = elim (get_keep_all-cases b entity qos) [
  | inl e ↦ inl e
  | inr e ↦ inr (inl e)
]
get_by_history-cases (HistoryPolicy.other n) b entity qos = inl refl

-- Every request is answered by no buffer and no change, by the first free buffer with the entity
-- below its depth (0 sets no bound), or by the oldest buffer of the entity.
pub get_static_input_buffer-cases :
    (b : Buffers) (entity : Ptr) (qos : QosProfile)
    → GotNone b (get_static_input_buffer_for_entity b entity qos)
      ⊎ GotFree b entity qos (get_static_input_buffer_for_entity b entity qos)
      ⊎ GotOldest b entity (get_static_input_buffer_for_entity b entity qos)
unfolding get_static_input_buffer_for_entity
get_static_input_buffer-cases b entity qos = get_by_history-cases qos.history b entity qos

get_keep_last-get_buffer :
    (b : Buffers) (entity : Ptr) (qos : QosProfile)
    → has_quota b entity qos ≡ true
    → get_keep_last b entity qos ≡ get_buffer b
unfolding get_keep_last
get_keep_last-get_buffer b entity qos quota = rw quota refl

-- An entity that keeps its last samples and is within its quota gets what the pool gives.
pub get_static_input_buffer-get_buffer :
    (b : Buffers) (entity : Ptr) (qos : QosProfile)
    → qos.history ≡ HistoryPolicy.keep_last
    → has_quota b entity qos ≡ true
    → get_static_input_buffer_for_entity b entity qos ≡ get_buffer b
unfolding get_static_input_buffer_for_entity get_by_history
get_static_input_buffer-get_buffer b entity qos keeps quota =
    (λ i. get_by_history (keeps i) b entity qos) ∙ get_keep_last-get_buffer b entity qos quota
