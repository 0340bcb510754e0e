-- ===== src/Take/Oldest.antt =====
-- The take functions against the buffers that wait: which sample is taken, and what is left.
use mathlib.Core.List.{reverse_aux}
use rmw_microxrcedds.Prelude.{
  ◌≡◌, refl, ap, ◌⊎◌, inl, inr, true, false, Option, none, some, List, ◌∷◌, if◌then◌else◌, Distinct,
  remove,
}
use rmw_microxrcedds.Prelude.Int.{ℤ, int64_max}
use rmw_microxrcedds.Pool
use rmw_microxrcedds.Types.{
  Ptr, Handle, Buffers, Owners, RmwTimeLibrary, ret_ok, ret_error, Related,
}
use rmw_microxrcedds.Identifiers.{identifiers_match}
use rmw_microxrcedds.StaticBuffer.{is_expired, put_buffer, clean_expired_static_input_buffer}
use rmw_microxrcedds.StaticBuffer.Find.{NoneBefore, IsOldest, find-IsOldest}
use rmw_microxrcedds.StaticBuffer.Clean.{select, drop_if, clean_expired-drop_if}
use rmw_microxrcedds.Take.{
  Deserializer, Taken, take_buffer, take_found, take_sample, rmw_take_with_info, rmw_take_request,
  sample_header,
}

module _ {M : Type 0} (time : RmwTimeLibrary) (o : Owners) (deserialize : Deserializer M) where
  -- The buffers that have not expired.
  abbrev pub alive : ℤ → Buffers → List Ptr
  alive now_ns b = drop_if (λ x. is_expired time o now_ns (b.slot x)) b.memory.allocated

  abbrev pub dead : ℤ → Buffers → List Ptr
  dead now_ns b = select (λ x. is_expired time o now_ns (b.slot x)) b.memory.allocated

  -- Nothing was there to take.
  pub record TookNothing {H : Type 0} (owner : Ptr) (now_ns : ℤ) (b : Buffers) (r : Taken M H)
      : Type 0 where
    pub nothing_waits : NoneBefore b.slot owner (alive now_ns b) int64_max
    pub fails : r.ret ≡ ret_error
    pub not_taken : r.taken ≡ some false
    pub untouched : r.message ≡ none
    pub left : r.buffers.memory.allocated ≡ alive now_ns b
    pub freed : r.buffers.memory.free ≡ reverse_aux (dead now_ns b) b.memory.free
    pub same : r.buffers.slot ≡ b.slot

  -- The sample of `y` was taken: an oldest of those of the owner that have not expired.
  pub record Took {H : Type 0} (header : Related → Option H) (owner : Ptr) (now_ns : ℤ)
      (b : Buffers) (y : Ptr) (r : Taken M H) : Type 0 where
    pub is_oldest : IsOldest b.slot owner (alive now_ns b) y
    pub answers :
        r.ret ≡ (if (deserialize (b.slot y).buffer (b.slot y).length).0 then ret_ok else ret_error)
    pub tells : r.taken ≡ some (deserialize (b.slot y).buffer (b.slot y).length).0
    pub delivers : r.message ≡ some (deserialize (b.slot y).buffer (b.slot y).length).1
    pub heads : r.header ≡ header (b.slot y).related
    pub left : r.buffers.memory.allocated ≡ remove y (alive now_ns b)
    pub freed : r.buffers.memory.free ≡ y ∷ reverse_aux (dead now_ns b) b.memory.free
    pub same : r.buffers.slot ≡ b.slot

  abbrev pub TakesOldest :
      {H : Type 0} → (Related → Option H) → Ptr → ℤ → Buffers → Taken M H → Type 0
  TakesOldest header owner now_ns b r =
      TookNothing owner now_ns b r ⊎ ((y : Ptr) × Took header owner now_ns b y r)

  take_found-none :
      {H : Type 0} (header : Related → Option H) (owner : Ptr) (now_ns : ℤ) (b c : Buffers)
      → c.memory.allocated ≡ alive now_ns b
      → c.memory.free ≡ reverse_aux (dead now_ns b) b.memory.free
      → c.slot ≡ b.slot
      → NoneBefore c.slot owner c.memory.allocated int64_max
      → TookNothing owner now_ns b (take_found deserialize header c none)
  unfolding take_found
  take_found-none header owner now_ns b c ea ef es waits = record {
    nothing_waits = rw (ea, es) at waits;
    fails = refl;
    not_taken = refl;
    untouched = refl;
    left = ea;
    freed = ef;
    same = es;
  }

  take_found-some :
      {H : Type 0} (header : Related → Option H) (owner : Ptr) (now_ns : ℤ) (b c : Buffers)
      (y : Ptr)
      → c.memory.allocated ≡ alive now_ns b
      → c.memory.free ≡ reverse_aux (dead now_ns b) b.memory.free
      → c.slot ≡ b.slot
      → IsOldest c.slot owner c.memory.allocated y
      → Took header owner now_ns b y (take_found deserialize header c (some y))
  unfolding take_found take_buffer put_buffer Pool.put
  take_found-some header owner now_ns b c y ea ef es oldest = record {
    is_oldest = rw (ea, es) at oldest;
    answers = rw es refl;
    tells = rw es refl;
    delivers = rw es refl;
    heads = rw es refl;
    left = ap (remove y) ea;
    freed = ap (λ l. y ∷ l) ef;
    same = es;
  }

  take_sample-TakesOldest :
      {H : Type 0} (header : Related → Option H) (owner : Ptr) (now_ns : ℤ) (b : Buffers)
      → Distinct b.memory.allocated
      → TakesOldest header owner now_ns b (take_sample time o deserialize header owner now_ns b)
  unfolding take_sample
  take_sample-TakesOldest header owner now_ns b d =
      let c = clean_expired_static_input_buffer time o now_ns b in
      let (ea, ef, es) = clean_expired-drop_if time o now_ns b d in
      elim (find-IsOldest c owner) [
        | inl (e, waits) ↦ rw e (inl (take_found-none header owner now_ns b c ea ef es waits))
        | inr (y, e, oldest, _) ↦
            rw e (inr (y, take_found-some header owner now_ns b c y ea ef es oldest))
      ]

  -- With distinct allocated buffers and on a subscription of this middleware, `rmw_take_with_info`
  -- takes an oldest of the subscription's samples that have not expired and gives just that
  -- sample's buffer and the expired ones back; it answers RMW_RET_OK exactly when the sample
  -- deserializes. Where none waits (with a time stamp before the largest `int64_t`) it answers
  -- RMW_RET_ERROR and `taken` is false.
  pub rmw_take_with_info-TakesOldest :
      (subscription : Handle) (now_ns : ℤ) (b : Buffers)
      → identifiers_match subscription.implementation_identifier ≡ true
      → Distinct b.memory.allocated
      → TakesOldest
          (λ _. none)
          subscription.contents
          now_ns
          b
          (rmw_take_with_info time o deserialize subscription now_ns b)
  unfolding rmw_take_with_info
  rmw_take_with_info-TakesOldest subscription now_ns b match d =
      rw match (take_sample-TakesOldest (λ _. none) subscription.contents now_ns b d)

  -- With distinct allocated buffers and on a service of this middleware, `rmw_take_request` does
  -- the same with the oldest request, whose converted identity is the header.
  pub rmw_take_request-TakesOldest :
      (service : Handle) (now_ns : ℤ) (b : Buffers)
      → identifiers_match service.implementation_identifier ≡ true
      → Distinct b.memory.allocated
      → TakesOldest sample_header service.contents now_ns b
          (rmw_take_request time o deserialize service now_ns b)
  unfolding rmw_take_request
  rmw_take_request-TakesOldest service now_ns b match d =
      rw match (take_sample-TakesOldest sample_header service.contents now_ns b d)
