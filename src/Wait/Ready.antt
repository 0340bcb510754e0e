-- ===== src/Wait/Ready.antt =====
-- What is left of the sets when `rmw_wait` returns, and its answer.
use rmw_microxrcedds.Prelude.{
  ◌≡◌, refl, sym, ap, ◌∙◌, inl, inr, Bool, true, false, ◌&&◌, ◌||◌, Option, none, some, List, [],
  ◌∷◌, map, arith, Bool-cases, if◌then◌else◌, has,
}
use rmw_microxrcedds.Prelude.Int.{ℤ}
use rmw_microxrcedds.Types.{Ptr, RmwTime, Buffers, Owners, RmwTimeLibrary, ret_ok, ret_timeout}
use rmw_microxrcedds.StaticBuffer.{clean_expired_static_input_buffer}
use rmw_microxrcedds.Wait.{
  SessionLibrary, Flags, set_flag, WaitState, WaitSets, Waited, entries, waits, check_loop,
  check_guards, is_null, struck, run_sessions, needed, check_sets, wait_for, rmw_wait,
}

-- The entry that `rmw_wait` leaves of an entity.
abbrev pub keep : Buffers → Ptr → Option Ptr
keep b x = if waits b x then some x else none

-- Some entry is not NULL.
abbrev pub any_left : List (Option Ptr) → Bool
any_left [] = false
any_left (none ∷ xs) = any_left xs
any_left (some x ∷ xs) = true

check_loop-keep :
    (b : Buffers) (xs : List Ptr) (status : Bool)
    → ((check_loop b xs status).0 ≡ map (keep b) xs)
      × ((check_loop b xs status).1 ≡ (status || any_left (map (keep b) xs)))
unfolding check_loop is_null
check_loop-keep b [] status = (refl, ground arith)
check_loop-keep b (x ∷ xs) status =
    let ih = check_loop-keep b xs (if waits b x then true else status) in
    elim (Bool-cases (waits b x)) [
      | inl e ↦ (ap (λ l. keep b x ∷ l) ih.0, ground (arith, ih.1, e))
      | inr e ↦ (ap (λ l. keep b x ∷ l) ih.0, ground (arith, ih.1, e))
    ]

-- The guard conditions: what triggered is left in the set at its first place, its flag is taken
-- back, and no other flag changes.
record Checked (f : Flags) (xs : List Ptr) (status : Bool) (r : List (Option Ptr) × Flags × Bool)
    : Type 0 where
  pub tells : r.2 ≡ (status || any_left r.0)
  pub listed : (y : Ptr) → has y xs ≡ true → r.1 y ≡ false
  pub others : (y : Ptr) → has y xs ≡ false → r.1 y ≡ f y

check_guards-Checked :
    (f : Flags) (xs : List Ptr) (status : Bool) → Checked f xs status (check_guards f xs status)
unfolding check_guards
check_guards-Checked f [] status = record {
  tells = ground arith;
  listed = λ y i. absurd (ground arith);
  others = λ y o. refl;
}
check_guards-Checked f (x ∷ xs) status =
    let f' = if f x then set_flag x false f else f in
    let c = check_guards-Checked f' xs (if f x then true else status) in
    record {
      tells = elim (Bool-cases (f x)) [
        | inl e ↦ ground (arith, c.tells, e)
        | inr e ↦ ground (arith, c.tells, e)
      ];
      listed = λ y i. elim (Bool-cases (has y xs)) [
        | inl h ↦ c.listed y h
        | inr h ↦ c.others y h ∙ ground arith
      ];
      others = λ y o. ground (arith, c.others y);
    }

-- The set that is left of a set of entities.
abbrev pub kept : Buffers → Option (List Ptr) → Option (List (Option Ptr))
kept b none = none
kept b (some xs) = some (map (keep b) xs)

struck-kept :
    (b : Buffers) (xs : Option (List Ptr)) (ys : List (Option Ptr))
    → ys ≡ map (keep b) (entries xs)
    → struck xs ys ≡ kept b xs
unfolding struck
struck-kept b none ys e = refl
struck-kept b (some xs) ys e = ap some e

loop-entries :
    (b : Buffers) (xs : Option (List Ptr)) (status : Bool)
    → entries (struck xs (check_loop b (entries xs) status).0)
      ≡ (check_loop b (entries xs) status).0
unfolding struck check_loop
loop-entries b none status = refl
loop-entries b (some xs) status = refl

guards-entries :
    (f : Flags) (xs : Option (List Ptr)) (status : Bool)
    → entries (struck xs (check_guards f (entries xs) status).0)
      ≡ (check_guards f (entries xs) status).0
unfolding struck check_guards
guards-entries f none status = refl
guards-entries f (some xs) status = refl

any_disjunction :
    (a b c d s t u v : Bool)
    → s ≡ (false || a)
    → t ≡ (s || b)
    → u ≡ (t || c)
    → v ≡ (u || d)
    → v ≡ (a || b || c || d)
any_disjunction a b c d s t u v hs ht hu hv = ground arith

-- Some entry of some set is left.
abbrev pub any_set : WaitSets (Option Ptr) → Bool
any_set sets =
    any_left (entries sets.services)
    || any_left (entries sets.clients)
    || any_left (entries sets.subscriptions)
    || any_left (entries sets.guard_conditions)

module _ (time : RmwTimeLibrary) (library : SessionLibrary) (o : Owners) where
  -- `rmw_wait` in terms of the buffers that the sessions left.
  pub record Waits (sets : WaitSets Ptr) (s : WaitState) (r : Waited) : Type 0 where
    pub services : r.sets.services ≡ kept s.buffers sets.services
    pub clients : r.sets.clients ≡ kept s.buffers sets.clients
    pub subscriptions : r.sets.subscriptions ≡ kept s.buffers sets.subscriptions
    pub answers : r.ret ≡ (if any_set r.sets then ret_ok else ret_timeout)
    pub resets :
        (y : Ptr) → has y (entries sets.guard_conditions) ≡ true → r.state.has_triggered y ≡ false
    pub spares :
        (y : Ptr)
        → has y (entries sets.guard_conditions) ≡ false
        → r.state.has_triggered y ≡ s.has_triggered y
    pub buffers : r.state.buffers ≡ s.buffers

  check_sets-Waits :
      (sets : WaitSets Ptr) (s : WaitState) → Waits sets s (check_sets time library o sets s)
  unfolding check_sets
  check_sets-Waits sets s =
      let (es, ts) = check_loop-keep s.buffers (entries sets.services) false in
      let (ec, tc) =
        check_loop-keep s.buffers (entries sets.clients)
          (check_loop s.buffers (entries sets.services) false).1 in
      let on_clients =
        (check_loop s.buffers (entries sets.clients)
          (check_loop s.buffers (entries sets.services) false).1).1 in
      let (eu, tu) = check_loop-keep s.buffers (entries sets.subscriptions) on_clients in
      let on_subscriptions = (check_loop s.buffers (entries sets.subscriptions) on_clients).1 in
      let c =
        check_guards-Checked s.has_triggered (entries sets.guard_conditions) on_subscriptions in
      record {
        services = struck-kept s.buffers sets.services _ es;
        clients = struck-kept s.buffers sets.clients _ ec;
        subscriptions = struck-kept s.buffers sets.subscriptions _ eu;
        answers =
            ap (λ (t : Bool). if t then ret_ok else ret_timeout)
              (rw
                (
                  loop-entries s.buffers sets.services false,
                  loop-entries s.buffers sets.clients
                      (check_loop s.buffers (entries sets.services) false).1,
                  loop-entries s.buffers sets.subscriptions on_clients,
                  guards-entries s.has_triggered sets.guard_conditions on_subscriptions,
                )
                (any_disjunction _ _ _ _ _ _ _ _ (rw (sym es) at ts) (rw (sym ec) at tc)
                  (rw (sym eu) at tu) c.tells));
        resets = c.listed;
        spares = c.others;
        buffers = refl;
      }

  -- Unless all four sets are NULL, `rmw_wait` leaves of each set of entities those for which a
  -- sample waits when the sessions have run, answers RMW_RET_OK if some entry of the four sets is
  -- left and RMW_RET_TIMEOUT if none is, and resets the listed guard conditions and no others.
  pub rmw_wait-Waits :
      (sets : WaitSets Ptr) (timeout : Option RmwTime) (now_ns : ℤ) (s : WaitState)
      → (is_null sets.services
          && is_null sets.clients
          && is_null sets.subscriptions
          && is_null sets.guard_conditions)
        ≡ false
      → let f = needed time library o sets s in
        let b = clean_expired_static_input_buffer time o now_ns s.buffers in
        let after = run_sessions time library f timeout s.sessions b in
        Waits sets
          (record s { need_to_be_ran = f; buffers = after })
          (rmw_wait time library o sets timeout now_ns s)
  unfolding rmw_wait wait_for
  rmw_wait-Waits sets timeout now_ns s some_set = rw some_set (check_sets-Waits sets _)
