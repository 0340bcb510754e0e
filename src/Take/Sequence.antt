-- ===== src/Take/Sequence.antt =====
-- `rmw_take_sequence` of rmw_microxrcedds_c/src/rmw_take.c. Of `message_sequence` the model has the
-- messages below its size, and of `message_info_sequence` nothing, as no information is written.
use rmw_microxrcedds.Prelude.{
  ℕ, zero, suc, ◌+◌, ◌≤◌, ◌≡◌, refl, ◌⊎◌, ◌↔◌, inl, inr, Bool, true, false, ◌&&◌, Option, none,
  some, List, [], ◌∷◌, ◌++◌, arith, Bool-cases, if◌then◌else◌, length,
}
use rmw_microxrcedds.Prelude.Int.{ℤ}
use rmw_microxrcedds.Types.{
  Handle, Buffers, Owners, RmwTimeLibrary, RmwRet, ret_ok, ret_error, ret_timeout, ret_unsupported,
  ret_invalid_argument, ret_incorrect_rmw_implementation,
}
use rmw_microxrcedds.Identifiers.{identifiers_match}
use rmw_microxrcedds.StaticBuffer.{
  clean_expired_static_input_buffer, find_static_input_buffer_by_owner,
}
use rmw_microxrcedds.Take.{
  Deserializer, Taken, take_buffer, take_found, take_sample, rmw_take_with_info,
}

pub record TakenSequence (M : Type 0) : Type 0 where
  pub ret : RmwRet
  pub taken : ℕ
  pub messages : List M
  pub buffers : Buffers

is_ok : RmwRet → Bool
is_ok ret_ok = true
is_ok ret_error = false
is_ok ret_timeout = false
is_ok ret_unsupported = false
is_ok ret_invalid_argument = false
is_ok ret_incorrect_rmw_implementation = false

-- `taken_flag`, which is false before the call.
taken_flag : Option Bool → Bool
taken_flag none = false
taken_flag (some t) = t

-- The call wrote at the end of the messages.
add_message : {M : Type 0} → List M → Option M → List M
add_message messages none = messages
add_message messages (some m) = messages ++ m ∷ []

-- The loop does not break.
goes_on : {M H : Type 0} → Taken M H → Bool
unfolding is_ok taken_flag
goes_on r = is_ok r.ret && taken_flag r.taken

module _ {M : Type 0} (time : RmwTimeLibrary) (o : Owners) (deserialize : Deserializer M) where
  -- `i` turns of the loop are left. The clock has a time for each turn, by the number taken before.
  pub take_loop : Handle → (ℕ → ℤ) → ℕ → RmwRet → ℕ → List M → Buffers → TakenSequence M
  unfolding add_message
  take_loop subscription clock zero ret taken messages b = record {
    ret = ret;
    taken = taken;
    messages = messages;
    buffers = b;
  }
  take_loop subscription clock (suc i) ret taken messages b =
      let r = rmw_take_with_info time o deserialize subscription (clock taken) b in
      let rest =
        take_loop subscription clock i r.ret (taken + 1) (add_message messages r.message)
          r.buffers in
      if goes_on r
      then rest
      else record { ret = r.ret; taken = taken; messages = messages; buffers = r.buffers }

  -- `rmw_take_sequence`. On a handle of another
  -- middleware it writes nothing.
  pub rmw_take_sequence : Handle → (ℕ → ℤ) → ℕ → Buffers → Option (TakenSequence M)
  rmw_take_sequence subscription clock count b =
      if identifiers_match subscription.implementation_identifier
      then some (take_loop subscription clock count ret_ok 0 [] b)
      else none

  -- What a call of `rmw_take_with_info` on a subscription of this middleware answers.
  abbrev Answers : Taken M (Unit {0}) → Type 0
  Answers r =
      ((goes_on r ≡ true) × (r.ret ≡ ret_ok) × ((m : M) × (r.message ≡ some m)))
      ⊎ ((goes_on r ≡ false) × (r.ret ≡ ret_error))

  take_buffer-Answers : (b : Buffers) (y : ℕ) → Answers (take_buffer deserialize (λ _. none) b y)
  unfolding take_buffer goes_on is_ok taken_flag
  take_buffer-Answers b y = elim (Bool-cases (deserialize (b.slot y).buffer (b.slot y).length).0) [
    | inl e ↦ rw e (inl (refl, refl, ((deserialize (b.slot y).buffer (b.slot y).length).1, refl)))
    | inr e ↦ rw e (inr (refl, refl))
  ]

  take_found-Answers :
      (b : Buffers) (x : Option ℕ) → Answers (take_found deserialize (λ _. none) b x)
  unfolding take_found goes_on is_ok
  take_found-Answers b none = inr (refl, refl)
  take_found-Answers b (some y) = take_buffer-Answers b y

  take-Answers :
      (subscription : Handle) (now_ns : ℤ) (b : Buffers)
      → identifiers_match subscription.implementation_identifier ≡ true
      → Answers (rmw_take_with_info time o deserialize subscription now_ns b)
  unfolding rmw_take_with_info take_sample
  take-Answers subscription now_ns b match =
      let c = clean_expired_static_input_buffer time o now_ns b in
      rw match (take_found-Answers c (find_static_input_buffer_by_owner c subscription.contents))

  -- The count of messages, and the answer, of the loop.
  record IsCounted (messages : List M) (taken i : ℕ) (s : TakenSequence M) : Type 0 where
    pub fits : s.taken ≤ taken + i
    pub counts : length s.messages + taken ≡ length messages + s.taken
    pub complete : (s.ret ≡ ret_ok) ↔ (s.taken ≡ taken + i)
    pub either : (s.ret ≡ ret_ok) ⊎ (s.ret ≡ ret_error)

  length-snoc : (xs : List M) (x : M) → length (xs ++ x ∷ []) ≡ length xs + 1
  length-snoc [] x = refl
  length-snoc (y ∷ xs) x = ground (arith, length-snoc xs x)

  take_loop-IsCounted :
      (subscription : Handle) (clock : ℕ → ℤ) (i taken : ℕ) (messages : List M) (b : Buffers)
      → identifiers_match subscription.implementation_identifier ≡ true
      → IsCounted messages taken i (take_loop subscription clock i ret_ok taken messages b)
  unfolding take_loop add_message
  take_loop-IsCounted subscription clock zero taken messages b match = record {
    fits = ground arith;
    counts = refl;
    complete = ground arith;
    either = inl refl;
  }
  take_loop-IsCounted subscription clock (suc i) taken messages b match =
      let r = rmw_take_with_info time o deserialize subscription (clock taken) b in
      elim (take-Answers subscription (clock taken) b match) [
        | inl (on, ok, (m, e)) ↦
            let ih =
              take_loop-IsCounted subscription clock i (taken + 1) (messages ++ m ∷ []) r.buffers
                match in
            rw (on, ok, e)
              (record {
                fits = ground (arith, ih.fits);
                counts = ground (arith, ih.counts, length-snoc messages m);
                complete =
                    (λ h. ground (arith, ih.complete.0 h), λ h. ih.complete.1 (ground arith));
                either = ih.either;
              })
        | inr (off, error) ↦
            rw (off, error)
              (record {
                fits = ground arith;
                counts = refl;
                complete = (λ h. absurd (ground (arith, h)), λ h. absurd (ground arith));
                either = inr refl;
              })
      ]

  -- `rmw_take_sequence` on a subscription of this middleware takes at most `count` messages, and
  -- the size of the sequence is the number taken. It answers RMW_RET_OK exactly when it took all
  -- `count`, and else RMW_RET_ERROR, also where it took some.
  pub rmw_take_sequence-counts :
      (subscription : Handle) (clock : ℕ → ℤ) (count : ℕ) (b : Buffers)
      → identifiers_match subscription.implementation_identifier ≡ true
      → (s : TakenSequence M) × (rmw_take_sequence subscription clock count b ≡ some s)
        × (s.taken ≤ count)
        × (length s.messages ≡ s.taken)
        × ((s.ret ≡ ret_ok) ↔ (s.taken ≡ count))
        × ((s.ret ≡ ret_ok) ⊎ (s.ret ≡ ret_error))
  unfolding rmw_take_sequence
  rmw_take_sequence-counts subscription clock count b match =
      let c = take_loop-IsCounted subscription clock count 0 [] b match in
      rw match (
        take_loop subscription clock count ret_ok 0 [] b,
        refl,
        ground (arith, c.fits),
        ground (arith, c.counts),
        (λ h. ground (arith, c.complete.0 h), λ h. c.complete.1 (ground arith)),
        c.either,
      )
