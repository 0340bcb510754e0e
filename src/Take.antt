-- ===== src/Take.antt =====
-- Taking the samples that wait: rmw_take.c, `rmw_take_request` of rmw_request.c and
-- `rmw_take_response` of rmw_response.c, all under rmw_microxrcedds_c/src. Each takes its handle,
-- the time on the clock, and the buffers, and returns what it leaves in its output arguments. An
-- output that it does not write is `none`. With a NULL `taken` that output is to be ignored.
pub mod Oldest
pub mod Sequence
pub mod Arrival
mod Tests
use rmw_microxrcedds.Prelude.{
  ℕ, zero, suc, ◌+◌, ◌*◌, ◌^◌, Bool, true, false, Option, none, some, List, [], ◌∷◌, ◌++◌,
  if◌then◌else◌,
}
use rmw_microxrcedds.Prelude.Int.{ℤ}
use rmw_microxrcedds.Types.{
  Ptr, Handle, RmwRet, ret_ok, ret_error, ret_unsupported, ret_incorrect_rmw_implementation,
  Related, StaticInputBuffer, Buffers, Owners, RmwTimeLibrary, RequestId, SampleIdentity,
}
use rmw_microxrcedds.Identifiers.{identifiers_match}
use rmw_microxrcedds.StaticBuffer.{
  find_static_input_buffer_by_owner, put_buffer, clean_expired_static_input_buffer,
}
use rmw_microxrcedds.SampleId.{to_request_id}

-- `cdr_deserialize` of the type support, on the first `length` bytes of a buffer: whether it
-- succeeds, and the message that it leaves.
abbrev pub Deserializer : Type 0 → Type 0
Deserializer M = List ℕ → ℕ → Bool × M

pub record Taken (M H : Type 0) : Type 0 where
  pub ret : RmwRet
  pub taken : Option Bool
  pub header : Option H
  pub message : Option M
  pub buffers : Buffers

-- The part after the sample was found: the header from the buffer, the message from its bytes, and
-- the buffer back to the pool.
unfoldable pub take_buffer :
    {M H : Type 0} → Deserializer M → (Related → Option H) → Buffers → Ptr → Taken M H
take_buffer deserialize header b x =
    let d = b.slot x in
    let (deserialize_rv, message) = deserialize d.buffer d.length in
    record {
      ret = if deserialize_rv then ret_ok else ret_error;
      taken = some deserialize_rv;
      header = header d.related;
      message = some message;
      buffers = put_buffer x b;
    }

-- `if (static_buffer_item == NULL) { return RMW_RET_ERROR; }`
unfoldable pub take_found :
    {M H : Type 0} → Deserializer M → (Related → Option H) → Buffers → Option Ptr → Taken M H
unfolding take_buffer
take_found deserialize header b none = record {
  ret = ret_error;
  taken = some false;
  header = none;
  message = none;
  buffers = b;
}
take_found deserialize header b (some x) = take_buffer deserialize header b x

unfoldable pub sample_header : Related → Option RequestId
sample_header (Related.sample_id s) = some (to_request_id s)
sample_header (Related.reply_id n) = none

unfoldable pub reply_header : Related → Option ℤ
reply_header (Related.reply_id n) = some n
reply_header (Related.sample_id s) = none

module _ {M : Type 0} (time : RmwTimeLibrary) (o : Owners) (deserialize : Deserializer M) where
  -- What the three functions share behind the check of the identifier.
  unfoldable pub take_sample : {H : Type 0} → (Related → Option H) → Ptr → ℤ → Buffers → Taken M H
  take_sample header owner now_ns b =
      let b₁ = clean_expired_static_input_buffer time o now_ns b in
      take_found deserialize header b₁ (find_static_input_buffer_by_owner b₁ owner)

  -- `rmw_take_with_info` and `rmw_take`, which passes its arguments on. A subscription's message
  -- has no header.
  pub rmw_take_with_info : Handle → ℤ → Buffers → Taken M (Unit {0})
  unfolding take_sample
  rmw_take_with_info subscription now_ns b =
      if identifiers_match subscription.implementation_identifier
      then take_sample (λ _. none) subscription.contents now_ns b
      else record {
        ret = ret_incorrect_rmw_implementation;
        taken = none;
        header = none;
        message = none;
        buffers = b;
      }

  -- `rmw_take_request`
  pub rmw_take_request : Handle → ℤ → Buffers → Taken M RequestId
  unfolding take_sample sample_header
  rmw_take_request service now_ns b =
      if identifiers_match service.implementation_identifier
      then take_sample sample_header service.contents now_ns b
      else record {
        ret = ret_incorrect_rmw_implementation;
        taken = none;
        header = none;
        message = none;
        buffers = b;
      }

  -- `rmw_take_response`: of the header it writes the sequence number.
  pub rmw_take_response : Handle → ℤ → Buffers → Taken M ℤ
  unfolding take_sample reply_header
  rmw_take_response client now_ns b =
      if identifiers_match client.implementation_identifier
      then take_sample reply_header client.contents now_ns b
      else record {
        ret = ret_incorrect_rmw_implementation;
        taken = none;
        header = none;
        message = none;
        buffers = b;
      }
