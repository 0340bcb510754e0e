-- ===== src/Take/Arrival.antt =====
-- A sample that a callback stored is the one that the next call takes.
use rmw_microxrcedds.Prelude.{
  ℕ, ◌≡◌, ◌≢◌, refl, inl, inr, Bool, true, false, some, List, [], ◌∷◌, arith, Bool-cases, ==_self,
  ==_iff, ◌==◌, has, Distinct,
}
use rmw_microxrcedds.Prelude.Int.{ℤ, int64_max, ◌<ℤ◌, ◌≤ℤ◌}
use rmw_microxrcedds.Pool
use rmw_microxrcedds.Types.{
  Ptr, Handle, QosProfile, HistoryPolicy, EntityType, Buffers, StaticInputBuffer, Owners,
  RmwTimeLibrary,
}
use rmw_microxrcedds.Identifiers.{identifiers_match}
use rmw_microxrcedds.StaticBuffer.{Slots, is_expired, has_quota, get_buffer}
use rmw_microxrcedds.StaticBuffer.Find.{IsOldest}
use rmw_microxrcedds.StaticBuffer.Clean.{drop_if}
use rmw_microxrcedds.StaticBuffer.Quota.{owned, count-owned, get_static_input_buffer-get_buffer}
use rmw_microxrcedds.Callbacks.{Reader, update, fill, store, store_in, receive}
use rmw_microxrcedds.Take.{Deserializer, rmw_take_with_info}
use rmw_microxrcedds.Take.Oldest.{alive, rmw_take_with_info-TakesOldest}

-- No buffer of the list is the entity's.
abbrev pub NoneOwned : Slots → Ptr → List Ptr → Type 0
NoneOwned slot entity xs = (x : Ptr) → has x xs ≡ true → (slot x).owner ≢ entity

owned_zero :
    (slot : Slots) (entity : Ptr) (xs : List Ptr)
    → NoneOwned slot entity xs
    → owned slot entity xs ≡ 0
owned_zero slot entity [] none_owned = refl
owned_zero slot entity (x ∷ xs) none_owned =
    let rest = owned_zero slot entity xs (λ y i. none_owned y (ground arith)) in
    let mine : (slot x).owner ≢ entity = none_owned x (ground arith) in ground (arith, rest)

has-drop_if :
    (p : Ptr → Bool) (y : Ptr) (xs : List Ptr) → has y (drop_if p xs) ≡ true → has y xs ≡ true
has-drop_if p y [] i = i
has-drop_if p y (x ∷ xs) i = ground (arith, has-drop_if p y xs)

module _ (entity y : Ptr) (ys : List Ptr) (qos : QosProfile) (length : ℕ) (bytes : List ℕ)
    (now_ns : ℤ) (b : Buffers) where
  sample : StaticInputBuffer
  unfolding fill
  sample = fill entity EntityType.subscription (λ r. r) length bytes now_ns (b.slot y)

  arrived : Buffers
  unfolding sample
  arrived = record {
    memory = record { allocated = y ∷ b.memory.allocated; free = ys };
    slot = update b.slot y sample;
  }

  quota : NoneOwned b.slot entity b.memory.allocated → qos.depth ≢ 0 → has_quota b entity qos ≡ true
  unfolding has_quota
  quota none_owned ne =
      ground (arith, count-owned b entity, owned_zero b.slot entity b.memory.allocated none_owned)

  receive-arrived :
      (read : Reader)
      → qos.history ≡ HistoryPolicy.keep_last
      → qos.depth ≢ 0
      → b.memory.free ≡ y ∷ ys
      → NoneOwned b.slot entity b.memory.allocated
      → read length ≡ (true, bytes)
      → receive entity qos EntityType.subscription (λ r. r) read length now_ns b ≡ arrived
  unfolding receive store_in store get_buffer Pool.get Pool.take arrived sample
  receive-arrived read keeps ne free none_owned reads =
      rw (get_static_input_buffer-get_buffer b entity qos keeps (quota none_owned ne), free, reads)
        refl

module _ {M : Type 0} (time : RmwTimeLibrary) (o : Owners) (deserialize : Deserializer M) where
  only_arrived :
      (entity y z : Ptr) (ys : List Ptr) (qos : QosProfile) (length : ℕ) (bytes : List ℕ)
      (then_ns now_ns : ℤ) (b : Buffers)
      → NoneOwned b.slot entity b.memory.allocated
      → let c = arrived entity y ys qos length bytes then_ns b in
        IsOldest c.slot entity (alive time o deserialize now_ns c) z → z ≡ y
  unfolding arrived
  only_arrived entity y z ys qos length bytes then_ns now_ns b none_owned oldest =
      elim (Bool-cases (z == y)) [
        | inl hit ↦ (==_iff z y).0 hit
        | inr miss ↦
            let i =
              has-drop_if
                (λ x.
                  is_expired time o now_ns
                    ((arrived entity y ys qos length bytes then_ns b).slot x))
                z (y ∷ b.memory.allocated) oldest.listed in
            absurd (none_owned z (ground (arith, i)) (ground (arith, oldest.owned)))
      ]

  take-arrived :
      (subscription : Handle) (y : Ptr) (ys : List Ptr) (qos : QosProfile) (length : ℕ)
      (bytes : List ℕ) (then_ns now_ns : ℤ) (b : Buffers)
      → identifiers_match subscription.implementation_identifier ≡ true
      → Distinct (y ∷ b.memory.allocated)
      → NoneOwned b.slot subscription.contents b.memory.allocated
      → then_ns <ℤ int64_max
      → let c = arrived subscription.contents y ys qos length bytes then_ns b in
        let r = rmw_take_with_info time o deserialize subscription now_ns c in
        is_expired time o now_ns (c.slot y) ≡ false
        → (r.message ≡ some (deserialize bytes length).1)
          × (r.taken ≡ some (deserialize bytes length).0)
  unfolding arrived sample fill
  take-arrived subscription y ys qos length bytes then_ns now_ns b match distinct none_owned past
        fresh =
      let entity = subscription.contents in
      let c = arrived entity y ys qos length bytes then_ns b in
      elim (rmw_take_with_info-TakesOldest time o deserialize subscription now_ns c match
        distinct) [
          | inl n ↦
              let listed : has y (alive time o deserialize now_ns c) ≡ true =
                rw fresh (ground arith) in
              let late : int64_max ≤ℤ then_ns =
                rw (==_self y) at (n.nothing_waits y listed (rw (==_self y) refl)) in
              absurd (ground (arith, late, past))
          | inr (z, t) ↦
              let same =
                only_arrived entity y z ys qos length bytes then_ns now_ns b none_owned
                  t.is_oldest in
              (rw (same, ==_self y) at t.delivers, rw (same, ==_self y) at t.tells)
        ]

  -- A subscription that keeps its last samples, has a depth, and has none waiting, receives a
  -- sample that can be read into a free buffer. A later take on that subscription, before the
  -- sample expires, takes that sample: the message is made of its bytes, and `taken` is whether
  -- they deserialize.
  pub take-receive :
      (subscription : Handle) (y : Ptr) (ys : List Ptr) (qos : QosProfile) (read : Reader)
      (length : ℕ) (bytes : List ℕ) (then_ns now_ns : ℤ) (b : Buffers)
      → identifiers_match subscription.implementation_identifier ≡ true
      → qos.history ≡ HistoryPolicy.keep_last
      → qos.depth ≢ 0
      → b.memory.free ≡ y ∷ ys
      → Distinct (y ∷ b.memory.allocated)
      → NoneOwned b.slot subscription.contents b.memory.allocated
      → read length ≡ (true, bytes)
      → then_ns <ℤ int64_max
      → let c =
          receive subscription.contents qos EntityType.subscription
            (λ r. r)
            read
            length
            then_ns
            b in
        let r = rmw_take_with_info time o deserialize subscription now_ns c in
        is_expired time o now_ns (c.slot y) ≡ false
        → (r.message ≡ some (deserialize bytes length).1)
          × (r.taken ≡ some (deserialize bytes length).0)
  take-receive subscription y ys qos read length bytes then_ns now_ns b match keeps ne free distinct
        none_owned reads past fresh =
      let entity = subscription.contents in
      let c = receive entity qos EntityType.subscription (λ r. r) read length then_ns b in
      let e : c ≡ arrived entity y ys qos length bytes then_ns b =
        receive-arrived entity y ys qos length bytes then_ns b read keeps ne free none_owned
          reads in
      rw e (
        take-arrived subscription y ys qos length bytes then_ns now_ns b match distinct none_owned
          past (rw e at fresh))
