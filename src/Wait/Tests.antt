-- ===== src/Wait/Tests.antt =====
-- The theorems on `rmw_wait`: one session, one subscription with samples, and a guard condition.
use rmw_microxrcedds.Prelude.{
  ◌≡◌, refl, true, false, ◌&&◌, ◌||◌, none, some, [], ◌∷◌, arith, ◌==◌, has,
}
use rmw_microxrcedds.Prelude.Int.{negsuc}
use rmw_microxrcedds.Types.{Ptr}
use rmw_microxrcedds.Samples.{time, owners, two_samples, ten_seconds, later}
use rmw_microxrcedds.StaticBuffer.{clean_expired_static_input_buffer}
use rmw_microxrcedds.StaticBuffer.Clean.{select}
use rmw_microxrcedds.Wait.{
  SessionLibrary, WaitState, WaitSets, is_null, entries, needed, run_sessions, rmw_wait,
}
use rmw_microxrcedds.Wait.Ready.{Waits, rmw_wait-Waits}
use rmw_microxrcedds.Wait.Sessions.{of_session, RunsChosen, run_sessions-needed}

-- A library whose sessions receive nothing.
abbrev quiet : SessionLibrary
quiet = record {
  timeout_inf = negsuc 0;
  run_session_until_data = λ x t b. b;
  run_session_timeout = λ x t b. b;
  float_quotient = λ t n. t;
}

abbrev state : WaitState
state = record {
  sessions = 10 ∷ 11 ∷ [];
  need_to_be_ran = λ x. true;
  context = λ node. 10;
  has_triggered = λ x. x == 80;
  buffers = two_samples;
}

abbrev sets : WaitSets Ptr
sets = record {
  subscriptions = some (40 ∷ []);
  guard_conditions = some (80 ∷ 81 ∷ []);
  services = none;
  clients = some (60 ∷ []);
}

some_set :
    (is_null sets.services
      && is_null sets.clients
      && is_null sets.subscriptions
      && is_null sets.guard_conditions)
    ≡ false
unfolding is_null
some_set = refl

rmw_wait-Waits_example :
    let o = owners ten_seconds in
    let f = needed time quiet o sets state in
    let b = clean_expired_static_input_buffer time o later two_samples in
    Waits time quiet o sets
      (record state {
        need_to_be_ran = f;
        buffers = run_sessions time quiet f (some ten_seconds) (10 ∷ 11 ∷ []) b;
      })
      (rmw_wait time quiet o sets (some ten_seconds) later state)
rmw_wait-Waits_example =
    rmw_wait-Waits time quiet (owners ten_seconds) sets (some ten_seconds) later state some_set

run_sessions-needed_example :
    let o = owners ten_seconds in
    let f = needed time quiet o sets state in
    RunsChosen time quiet none
      (10 ∷ 11 ∷ [])
      (select f (10 ∷ 11 ∷ []))
      two_samples
      (run_sessions time quiet f none (10 ∷ 11 ∷ []) two_samples)
    × ((y : Ptr)
        → has y (10 ∷ 11 ∷ []) ≡ true
        → f y ≡ (
            of_session
              (λ x. state.context (o.subscriptions.at x).owner_node)
              (entries sets.subscriptions)
              y
            || of_session (λ x. state.context (o.clients.at x).owner_node) (entries sets.clients) y
            || of_session
                (λ x. state.context (o.services.at x).owner_node)
                (entries sets.services)
                y))
run_sessions-needed_example =
    run_sessions-needed time quiet (owners ten_seconds) sets none state two_samples (ground arith)
