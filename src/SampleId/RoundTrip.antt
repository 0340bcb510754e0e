-- ===== src/SampleId/RoundTrip.antt =====
-- The two conversions are inverse to one another.
use rmw_microxrcedds.Prelude.{
  ℕ, zero, suc, ◌+◌, ◌*◌, ◌/◌, ◌%◌, ◌^◌, ◌<◌, ◌≡◌, refl, ap, ◌∙◌, List, [], ◌∷◌, ◌++◌, take, drop,
  get_or, length, length-take, length-drop, take-append-drop, arith,
}
use rmw_microxrcedds.Types.{RequestId, SampleIdentity}
use rmw_microxrcedds.SampleId.{to_request_id, from_request_id}

-- The words and the arrays have their sizes.
pub record IsSampleIdentity (s : SampleIdentity) : Type 0 where
  pub high : s.high < 2 ^ 32
  pub low : s.low < 2 ^ 32
  pub entity_key : length s.entity_key ≡ 3
  pub guid_prefix : length s.guid_prefix ≡ 12

pub record IsRequestId (r : RequestId) : Type 0 where
  pub sequence_number : r.sequence_number < 2 ^ 64
  pub writer_guid : length r.writer_guid ≡ 16

take-all : (n : ℕ) (xs : List ℕ) → length xs ≡ n → take n xs ≡ xs
take-all zero [] e = refl
take-all zero (x ∷ xs) e = absurd (omega arith)
take-all (suc n) [] e = refl
take-all (suc n) (x ∷ xs) e = ap (◌∷◌ x) (take-all n xs (omega arith))

take-append : (n : ℕ) (xs ys : List ℕ) → length xs ≡ n → take n (xs ++ ys) ≡ xs
take-append zero [] ys e = refl
take-append zero (x ∷ xs) ys e = absurd (omega arith)
take-append (suc n) [] ys e = absurd (omega arith)
take-append (suc n) (x ∷ xs) ys e = ap (◌∷◌ x) (take-append n xs ys (omega arith))

drop-append : (n : ℕ) (xs ys : List ℕ) → length xs ≡ n → drop n (xs ++ ys) ≡ ys
drop-append zero [] ys e = refl
drop-append zero (x ∷ xs) ys e = absurd (omega arith)
drop-append (suc n) [] ys e = absurd (omega arith)
drop-append (suc n) (x ∷ xs) ys e = drop-append n xs ys (omega arith)

-- A header made of a sample identity with words and arrays of their sizes stands for that identity.
pub from-to : (s : SampleIdentity) → IsSampleIdentity s → from_request_id (to_request_id s) ≡ s
unfolding from_request_id to_request_id
from-to s w =
    let high : (s.high * 2 ^ 32 + s.low) / 2 ^ 32 % 2 ^ 32 ≡ s.high = omega arith in
    let low : (s.high * 2 ^ 32 + s.low) % 2 ^ 32 ≡ s.low = omega arith in
    let key = take-all 3 s.entity_key w.entity_key in
    let prefix = take-all 12 s.guid_prefix w.guid_prefix in
    let bytes : take 3 s.entity_key ++ take 12 s.guid_prefix ≡ s.entity_key ++ s.guid_prefix =
      rw (key, prefix) in
    let entity_key = ap (take 3) bytes ∙ take-append 3 s.entity_key s.guid_prefix w.entity_key in
    let guid_prefix =
      ap (λ (xs : List ℕ). take 12 (drop 3 xs)) bytes
      ∙ ap (take 12) (drop-append 3 s.entity_key s.guid_prefix w.entity_key)
      ∙ prefix in
    λ i. record {
      high = high i;
      low = low i;
      entity_kind = s.entity_kind;
      entity_key = entity_key i;
      guid_prefix = guid_prefix i;
    }

writer_guid_bytes :
    (g : List ℕ)
    → length g ≡ 16
    → get_or g 0 0 ∷ (take 3 (take 3 (drop 1 g)) ++ take 12 (take 12 (drop 4 g))) ≡ g
writer_guid_bytes [] e = absurd (omega arith)
writer_guid_bytes (x ∷ xs) e =
    let key = take-all 3 (take 3 xs) (length-take 3 xs (omega arith)) in
    let rest = take-all 12 (drop 3 xs) (omega (arith, length-drop 3 xs)) in
    ap (◌∷◌ x) (rw (key, rest, rest) (take-append-drop 3 xs))

-- An identity made of a header of 64 bits and 16 bytes stands for that header.
pub to-from : (r : RequestId) → IsRequestId r → to_request_id (from_request_id r) ≡ r
unfolding from_request_id to_request_id
to-from r w =
    let number : r.sequence_number / 2 ^ 32 % 2 ^ 32 * 2 ^ 32 + r.sequence_number % 2 ^ 32
        ≡ r.sequence_number =
      omega arith in
    let bytes = writer_guid_bytes r.writer_guid w.writer_guid in
    λ i. record { sequence_number = number i; writer_guid = bytes i }
