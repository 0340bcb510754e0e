-- ===== src/Take/Tests.antt =====
-- The theorems on the take functions with two samples waiting.
use rmw_microxrcedds.Prelude.{ℕ, ◌≤◌, ◌≡◌, refl, ◌⊎◌, ◌↔◌, true, false, none, some, [], ◌∷◌, length}
use rmw_microxrcedds.Types.{Handle, ret_ok, ret_error}
use rmw_microxrcedds.Samples.{time, owners, two_samples, ten_seconds, later}
use rmw_microxrcedds.Identifiers.{eprosima_microxrcedds_identifier, identifiers_match}
use rmw_microxrcedds.Take.{Deserializer, rmw_take_with_info, rmw_take_request, sample_header}
use rmw_microxrcedds.Take.Oldest.{
  TakesOldest, rmw_take_with_info-TakesOldest, rmw_take_request-TakesOldest,
}
use rmw_microxrcedds.Take.Arrival.{take-receive}
use rmw_microxrcedds.Callbacks.{Reader, receive, store_in, store, fill}
use rmw_microxrcedds.StaticBuffer.{
  has_quota, count_static_input_buffer_for_entity, count_loop, get_buffer, is_expired,
  buffer_lifespan, owner_lifespan, get_static_input_buffer_for_entity,
}
use rmw_microxrcedds.Samples.{qos_of, sample}
use rmw_microxrcedds.Types.{Buffers, EntityType}
use rmw_microxrcedds.Prelude.Int.{pos, add64, ◌+ℤ◌}
use rmw_microxrcedds.Prelude.{arith}
use rmw_microxrcedds.Pool
use rmw_microxrcedds.Take.Sequence.{TakenSequence, rmw_take_sequence, rmw_take_sequence-counts}

-- A message is one byte.
abbrev first_byte : Deserializer ℕ
first_byte [] length = (false, 0)
first_byte (x ∷ xs) length = (true, x)

abbrev handle_of : ℕ → Handle
handle_of entity = record {
  implementation_identifier = some eprosima_microxrcedds_identifier;
  contents = entity;
}

handle-matches :
    (entity : ℕ) → identifiers_match (handle_of entity).implementation_identifier ≡ true
unfolding identifiers_match
handle-matches entity = refl

rmw_take_with_info-TakesOldest_example :
    TakesOldest time
      (owners ten_seconds)
      first_byte
      (λ _. none)
      40
      later
      two_samples
      (rmw_take_with_info time (owners ten_seconds) first_byte (handle_of 40) later two_samples)
rmw_take_with_info-TakesOldest_example =
    rmw_take_with_info-TakesOldest time (owners ten_seconds) first_byte (handle_of 40) later
      two_samples (handle-matches 40) (refl, (refl, tt))

rmw_take_request-TakesOldest_example :
    TakesOldest time
      (owners ten_seconds)
      first_byte
      sample_header
      50
      later
      two_samples
      (rmw_take_request time (owners ten_seconds) first_byte (handle_of 50) later two_samples)
rmw_take_request-TakesOldest_example =
    rmw_take_request-TakesOldest time (owners ten_seconds) first_byte (handle_of 50) later
      two_samples (handle-matches 50) (refl, (refl, tt))

rmw_take_sequence-counts_example :
    (s : TakenSequence ℕ) × (rmw_take_sequence time
        (owners ten_seconds)
        first_byte
        (handle_of 40)
        (λ taken. later)
        3
        two_samples
      ≡ some s)
    × (s.taken ≤ 3)
    × (length s.messages ≡ s.taken)
    × ((s.ret ≡ ret_ok) ↔ (s.taken ≡ 3))
    × ((s.ret ≡ ret_ok) ⊎ (s.ret ≡ ret_error))
rmw_take_sequence-counts_example =
    rmw_take_sequence-counts time (owners ten_seconds) first_byte (handle_of 40) (λ taken. later) 3
      two_samples (handle-matches 40)

abbrev no_samples : Buffers
no_samples = record { memory = record { allocated = []; free = 3 ∷ 4 ∷ [] }; slot = sample }

abbrev reads : Reader
reads length = (true, 77 ∷ [])

fresh_sample :
    is_expired time (owners ten_seconds) (pos 6) (
      (receive 40
          (qos_of ten_seconds)
          EntityType.subscription
          (λ r. r)
          reads
          1
          (pos 5)
          no_samples).slot
        3)
    ≡ false
unfolding receive store_in store fill get_static_input_buffer_for_entity has_quota
    count_static_input_buffer_for_entity count_loop get_buffer Pool.get Pool.take is_expired
    buffer_lifespan owner_lifespan add64 ◌+ℤ◌
fresh_sample = refl

take-receive_example :
    let c =
      receive 40 (qos_of ten_seconds) EntityType.subscription (λ r. r) reads 1 (pos 5) no_samples in
    let r = rmw_take_with_info time (owners ten_seconds) first_byte (handle_of 40) (pos 6) c in
    (r.message ≡ some 77) × (r.taken ≡ some true)
take-receive_example =
    take-receive time (owners ten_seconds) first_byte (handle_of 40) 3 (4 ∷ []) (qos_of ten_seconds)
      reads 1 (77 ∷ []) (pos 5) (pos 6) no_samples (handle-matches 40) refl (ground arith) refl
      (refl, tt) (λ x i. absurd (ground (arith, i))) refl (ground arith) fresh_sample
