-- ===== src/Wait.antt =====
-- rmw_microxrcedds_c/src/rmw_wait.c: the sessions of the entities run, and what has nothing to take
-- is struck from the sets. A set is a pointer that may be NULL, and the entries of a set are not
-- NULL before the call.
pub mod Sessions
pub mod Sets
pub mod Ready
mod Tests
use rmw_microxrcedds.Prelude.{
  ℕ, ◌+◌, ◌-◌, ◌/◌, ◌%◌, ◌^◌, Bool, true, false, ◌&&◌, ◌||◌, not, Option, none, some, List, [], ◌∷◌,
  map, ltb, ◌==◌, if◌then◌else◌,
}
use rmw_microxrcedds.Prelude.Int.{ℤ, pos, negsuc, ltb_ℤ}
use rmw_microxrcedds.Types.{
  Ptr, RmwTime, Buffers, Owners, RmwTimeLibrary, RmwRet, ret_ok, ret_timeout,
}
use rmw_microxrcedds.StaticBuffer.{
  clean_expired_static_input_buffer, find_static_input_buffer_by_owner,
}

-- What the client library does for a session, which calls back into the buffers, its constant
-- UXR_TIMEOUT_INF, and the quotient of two numbers as `float`, cast to `int32_t`.
pub record SessionLibrary : Type 0 where
  pub timeout_inf : ℤ
  pub run_session_until_data : Ptr → ℤ → Buffers → Buffers
  pub run_session_timeout : Ptr → ℤ → Buffers → Buffers
  pub float_quotient : ℤ → ℕ → ℤ

abbrev pub Flags : Type 0
Flags = Ptr → Bool

abbrev pub set_flag : Ptr → Bool → Flags → Flags
set_flag x v f = λ y. if y == x then v else f y

-- `allocateditems` of `session_memory`, the member `need_to_be_ran` of its contexts, the contexts
-- of the nodes, and `hasTriggered` of the guard conditions.
pub record WaitState : Type 0 where
  pub sessions : List Ptr
  pub need_to_be_ran : Flags
  pub context : Ptr → Ptr
  pub has_triggered : Flags
  pub buffers : Buffers

pub record WaitSets (A : Type 0) : Type 0 where
  pub subscriptions : Option (List A)
  pub guard_conditions : Option (List A)
  pub services : Option (List A)
  pub clients : Option (List A)

pub record Waited : Type 0 where
  pub ret : RmwRet
  pub sets : WaitSets (Option Ptr)
  pub state : WaitState

-- `services && i < services->service_count`
abbrev pub entries : {A : Type 0} → Option (List A) → List A
entries none = []
entries (some xs) = xs

unfoldable pub clear_loop : List Ptr → Flags → Flags
clear_loop [] f = f
clear_loop (x ∷ xs) f = clear_loop xs (set_flag x false f)

unfoldable pub enable_loop : (Ptr → Ptr) → List Ptr → Flags → Flags
enable_loop context_of [] f = f
enable_loop context_of (x ∷ xs) f = enable_loop context_of xs (set_flag (context_of x) true f)

-- `available_contexts` is a `uint8_t`.
unfoldable pub count_loop : Flags → List Ptr → ℕ → ℕ
count_loop f [] available_contexts = available_contexts
count_loop f (x ∷ xs) available_contexts =
    count_loop f xs ((available_contexts + (if f x then 1 else 0)) % 2 ^ 8)

unfoldable pub is_null : {A : Type 0} → Option A → Bool
is_null none = true
is_null (some x) = false

-- Whether a sample waits for the entity.
abbrev pub waits : Buffers → Ptr → Bool
waits b x = not (is_null (find_static_input_buffer_by_owner b x))

-- A set's entries struck where nothing waits, and `buffered_status`.
unfoldable pub check_loop : Buffers → List Ptr → Bool → List (Option Ptr) × Bool
check_loop b [] buffered_status = ([], buffered_status)
check_loop b (x ∷ xs) buffered_status =
    let (rest, status) = check_loop b xs (if waits b x then true else buffered_status) in
    ((if waits b x then some x else none) ∷ rest, status)

unfoldable pub check_guards : Flags → List Ptr → Bool → List (Option Ptr) × Flags × Bool
check_guards f [] buffered_status = ([], f, buffered_status)
check_guards f (x ∷ xs) buffered_status =
    let (rest, f', status) =
      check_guards (if f x then set_flag x false f else f) xs
        (if f x then true else buffered_status) in
    ((if f x then some x else none) ∷ rest, f', status)

-- The set after the loop over it.
unfoldable pub struck : Option (List Ptr) → List (Option Ptr) → Option (List (Option Ptr))
struck none ys = none
struck (some xs) ys = some ys

as_uint64 : ℤ → ℕ
as_uint64 (pos n) = n
as_uint64 (negsuc n) = 2 ^ 64 - (n + 1)

same_ℤ : ℤ → ℤ → Bool
same_ℤ a b = not (ltb_ℤ a b) && not (ltb_ℤ b a)

module _ (time : RmwTimeLibrary) (library : SessionLibrary) where
  -- `timeout.i32`
  unfoldable pub wait_timeout_ms : Option RmwTime → ℤ
  unfolding as_uint64
  wait_timeout_ms none = library.timeout_inf
  wait_timeout_ms (some t) =
      let ms = as_uint64 (time.rmw_time_total_nsec t) / 1000000 in
      if time.rmw_time_equal t time.duration_infinite
      then library.timeout_inf
      else pos (if ltb 2147483647 ms then 2147483647 else ms)

  -- The two loops that run sessions.
  unfoldable pub run_needed : Flags → ℤ → List Ptr → Buffers → Buffers
  run_needed f timeout [] b = b
  run_needed f timeout (x ∷ xs) b =
      run_needed f timeout xs (if f x then library.run_session_until_data x timeout b else b)

  unfoldable pub run_idle : List Ptr → Buffers → Buffers
  run_idle [] b = b
  run_idle (x ∷ xs) b = run_idle xs (library.run_session_timeout x (pos 0) b)

  unfoldable pub per_session_timeout : ℤ → ℕ → ℤ
  unfolding same_ℤ
  per_session_timeout timeout available_contexts =
      if same_ℤ timeout library.timeout_inf
      then library.timeout_inf
      else library.float_quotient timeout available_contexts

  unfoldable pub run_sessions : Flags → Option RmwTime → List Ptr → Buffers → Buffers
  run_sessions f timeout sessions b =
      let available_contexts = count_loop f sessions 0 in
      if available_contexts == 0
      then run_idle sessions b
      else run_needed f (per_session_timeout (wait_timeout_ms timeout) available_contexts) sessions
          b

  module _ (o : Owners) where
    -- The flags after the loops that clear and enable them.
    unfoldable pub needed : WaitSets Ptr → WaitState → Flags
    needed sets s =
        enable_loop (λ x. s.context (o.subscriptions.at x).owner_node) (entries sets.subscriptions)
          (enable_loop (λ x. s.context (o.clients.at x).owner_node) (entries sets.clients)
            (enable_loop (λ x. s.context (o.services.at x).owner_node) (entries sets.services)
              (clear_loop s.sessions s.need_to_be_ran)))

    -- The checks, on the buffers that the sessions left.
    unfoldable pub check_sets : WaitSets Ptr → WaitState → Waited
    check_sets sets s =
        let (services, on_services) = check_loop s.buffers (entries sets.services) false in
        let (clients, on_clients) = check_loop s.buffers (entries sets.clients) on_services in
        let (subscriptions, on_subscriptions) =
          check_loop s.buffers (entries sets.subscriptions) on_clients in
        let (guard_conditions, has_triggered, buffered_status) =
          check_guards s.has_triggered (entries sets.guard_conditions) on_subscriptions in
        record {
          ret = if buffered_status then ret_ok else ret_timeout;
          sets = record {
            subscriptions = struck sets.subscriptions subscriptions;
            guard_conditions = struck sets.guard_conditions guard_conditions;
            services = struck sets.services services;
            clients = struck sets.clients clients;
          };
          state = record s { has_triggered = has_triggered };
        }

    -- `rmw_wait` behind its first test.
    unfoldable pub wait_for : WaitSets Ptr → Option RmwTime → ℤ → WaitState → Waited
    wait_for sets timeout now_ns s =
        let f = needed sets s in
        let b = clean_expired_static_input_buffer time o now_ns s.buffers in
        check_sets sets
          (record s { need_to_be_ran = f; buffers = run_sessions f timeout s.sessions b })

    -- `rmw_wait`
    unfoldable pub rmw_wait : WaitSets Ptr → Option RmwTime → ℤ → WaitState → Waited
    rmw_wait sets timeout now_ns s =
        if is_null sets.services
          && is_null sets.clients
          && is_null sets.subscriptions
          && is_null sets.guard_conditions
        then record {
          ret = ret_ok;
          sets = record {
            subscriptions = none;
            guard_conditions = none;
            services = none;
            clients = none;
          };
          state = s;
        }
        else wait_for sets timeout now_ns s
