-- ===== src/SampleId/Tests.antt =====
-- The theorems on the conversions at one identity and its header.
use rmw_microxrcedds.Prelude.{◌≡◌, refl, [], ◌∷◌, arith}
use rmw_microxrcedds.Types.{SampleIdentity, RequestId}
use rmw_microxrcedds.SampleId.{to_request_id, from_request_id}
use rmw_microxrcedds.SampleId.RoundTrip.{from-to, to-from}

abbrev identity : SampleIdentity
identity = record {
  high = 1;
  low = 4294967295;
  entity_kind = 4;
  entity_key = 1 ∷ 2 ∷ 3 ∷ [];
  guid_prefix = 1 ∷ 2 ∷ 3 ∷ 4 ∷ 5 ∷ 6 ∷ 7 ∷ 8 ∷ 9 ∷ 10 ∷ 11 ∷ 12 ∷ [];
}

abbrev header : RequestId
header = record {
  sequence_number = 8589934591;
  writer_guid = 4 ∷ 1 ∷ 2 ∷ 3 ∷ 1 ∷ 2 ∷ 3 ∷ 4 ∷ 5 ∷ 6 ∷ 7 ∷ 8 ∷ 9 ∷ 10 ∷ 11 ∷ 12 ∷ [];
}

from-to_example : from_request_id (to_request_id identity) ≡ identity
from-to_example =
    from-to identity
      (record { high = ground arith; low = ground arith; entity_key = refl; guid_prefix = refl })

to-from_example : to_request_id (from_request_id header) ≡ header
to-from_example = to-from header (record { sequence_number = ground arith; writer_guid = refl })
