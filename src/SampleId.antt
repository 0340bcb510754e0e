-- ===== src/SampleId.antt =====
-- The request header and the sample identity: the conversions of `rmw_take_request`
-- (rmw_microxrcedds_c/src/rmw_request.c) and `rmw_send_response` (rmw_response.c). Signed numbers
-- are their bit patterns, so the casts between signed and unsigned types change nothing.
pub mod RoundTrip
mod Tests
use rmw_microxrcedds.Prelude.{
  ℕ, zero, suc, ◌+◌, ◌*◌, ◌/◌, ◌%◌, ◌^◌, List, [], ◌∷◌, ◌++◌, take, drop, get_or,
}
use rmw_microxrcedds.Types.{RequestId, SampleIdentity}

-- The high word shifted left by 32, with the low word in the bits that this clears, and the bytes
-- of the writer: its kind, its key of 3 and its prefix of 12.
pub to_request_id : SampleIdentity → RequestId
to_request_id s = record {
  sequence_number = s.high * 2 ^ 32 + s.low;
  writer_guid = s.entity_kind ∷ (take 3 s.entity_key ++ take 12 s.guid_prefix);
}

pub from_request_id : RequestId → SampleIdentity
from_request_id r = record {
  high = r.sequence_number / 2 ^ 32 % 2 ^ 32;
  low = r.sequence_number % 2 ^ 32;
  entity_kind = get_or r.writer_guid 0 0;
  entity_key = take 3 (drop 1 r.writer_guid);
  guid_prefix = take 12 (drop 4 r.writer_guid);
}
