-- ===== src/StaticBuffer.antt =====
-- The static input buffers of rmw_microxrcedds_c/src/types.c: received samples that wait to be
-- taken. A buffer's item and its data have one address. The loops run over `allocateditems` in
-- the order of the list. The lock of the pool is held by the caller of each step of a loop.
pub mod Find
pub mod Clean
pub mod Heap
pub mod Quota
mod Tests
use rmw_microxrcedds.Prelude.{
  ℕ, suc, ◌+◌, Bool, true, false, ◌&&◌, ◌||◌, Option, none, some, List, [], ◌∷◌, ltb, ◌==◌,
  if◌then◌else◌,
}
use rmw_microxrcedds.Prelude.Int.{ℤ, int64_max, ltb_ℤ, add64}
use rmw_microxrcedds.Pool
use rmw_microxrcedds.Types.{
  Ptr, RmwTime, QosProfile, HistoryPolicy, StaticInputBuffer, Buffers, EntityType, Owners,
  RmwTimeLibrary,
}

abbrev pub Slots : Type 0
Slots = Ptr → StaticInputBuffer

-- `rmw_uxrce_count_static_input_buffer_for_entity`
unfoldable pub count_loop : Slots → Ptr → List Ptr → ℕ → ℕ
count_loop slot entity [] count = count
count_loop slot entity (x ∷ xs) count =
    count_loop slot entity xs (if (slot x).owner == entity then count + 1 else count)

unfoldable pub count_static_input_buffer_for_entity : Buffers → Ptr → ℕ
count_static_input_buffer_for_entity b entity = count_loop b.slot entity b.memory.allocated 0

-- `rmw_uxrce_find_static_input_buffer_by_owner`
unfoldable pub find_loop : Slots → Ptr → List Ptr → Option Ptr → ℤ → Option Ptr
find_loop slot owner [] ret min_time = ret
find_loop slot owner (x ∷ xs) ret min_time =
    let older = (slot x).owner == owner && ltb_ℤ (slot x).timestamp min_time in
    find_loop slot owner xs (if older then some x else ret)
      (if older then (slot x).timestamp else min_time)

unfoldable pub find_static_input_buffer_by_owner : Buffers → Ptr → Option Ptr
find_static_input_buffer_by_owner b owner = find_loop b.slot owner b.memory.allocated none int64_max

-- `get_memory(&static_buffer_memory)`
unfoldable pub get_buffer : Buffers → Option Ptr × Buffers
get_buffer b = let (item, memory) = Pool.get b.memory in (item, record b { memory = memory })

-- `put_memory(&static_buffer_memory, item)`
unfoldable pub put_buffer : Ptr → Buffers → Buffers
put_buffer x b = record b { memory = Pool.put x b.memory }

-- The test of both cases of the switch.
unfoldable pub has_quota : Buffers → Ptr → QosProfile → Bool
has_quota b entity qos =
    (qos.depth == 0) || ltb (count_static_input_buffer_for_entity b entity) qos.depth

get_keep_last : Buffers → Ptr → QosProfile → Option Ptr × Buffers
get_keep_last b entity qos =
    if has_quota b entity qos then get_buffer b else (find_static_input_buffer_by_owner b entity, b)

get_keep_all : Buffers → Ptr → QosProfile → Option Ptr × Buffers
get_keep_all b entity qos = if has_quota b entity qos then get_buffer b else (none, b)

get_by_history : HistoryPolicy → Buffers → Ptr → QosProfile → Option Ptr × Buffers
get_by_history HistoryPolicy.unknown b entity qos = get_keep_last b entity qos
get_by_history HistoryPolicy.system_default b entity qos = get_keep_last b entity qos
get_by_history HistoryPolicy.keep_last b entity qos = get_keep_last b entity qos
get_by_history HistoryPolicy.keep_all b entity qos = get_keep_all b entity qos
get_by_history (HistoryPolicy.other n) b entity qos = (none, b)

-- `rmw_uxrce_get_static_input_buffer_for_entity`
unfoldable pub get_static_input_buffer_for_entity :
    Buffers → Ptr → QosProfile → Option Ptr × Buffers
unfolding get_by_history get_keep_last get_keep_all
get_static_input_buffer_for_entity b entity qos = get_by_history qos.history b entity qos

-- RMW_UXRCE_QOS_LIFESPAN_DEFAULT
abbrev pub qos_lifespan_default : RmwTime
qos_lifespan_default = record { sec = 30; nsec = 0 }

-- The lifespan that the buffer's owner asks for. Any other buffer is to go as soon as possible.
unfoldable pub owner_lifespan : Owners → EntityType → Ptr → RmwTime
owner_lifespan o EntityType.subscription owner = (o.subscriptions.at owner).qos.lifespan
owner_lifespan o EntityType.client owner = (o.clients.at owner).qos.lifespan
owner_lifespan o EntityType.service owner = (o.services.at owner).qos.lifespan
owner_lifespan o _ owner = record { sec = 0; nsec = 1 }

module _ (time : RmwTimeLibrary) (o : Owners) where
  unfoldable pub buffer_lifespan : StaticInputBuffer → RmwTime
  buffer_lifespan d =
      let lifespan = owner_lifespan o d.entity_type d.owner in
      if time.rmw_time_equal lifespan time.duration_unspecified
      then qos_lifespan_default
      else lifespan

  -- The test of the loop of `rmw_uxrce_clean_expired_static_input_buffer`.
  unfoldable pub is_expired : ℤ → StaticInputBuffer → Bool
  is_expired now_ns d =
      let expiration_time = add64 d.timestamp (time.rmw_time_total_nsec (buffer_lifespan d)) in
      ltb_ℤ expiration_time now_ns || ltb_ℤ now_ns d.timestamp

  -- The body of the loop.
  unfoldable pub clean_step : ℤ → Ptr → Buffers → Buffers
  clean_step now_ns x b = if is_expired now_ns (b.slot x) then put_buffer x b else b

  -- The successor of an item is read before the item goes back to the pool.
  unfoldable pub clean_loop : ℤ → List Ptr → Buffers → Buffers
  clean_loop now_ns [] b = b
  clean_loop now_ns (x ∷ xs) b = clean_loop now_ns xs (clean_step now_ns x b)

  -- `rmw_uxrce_clean_expired_static_input_buffer`, at the time that the clock shows.
  unfoldable pub clean_expired_static_input_buffer : ℤ → Buffers → Buffers
  clean_expired_static_input_buffer now_ns b = clean_loop now_ns b.memory.allocated b
