-- ===== src/Session/Tests.antt =====
-- The theorems on contexts: one is started beside another, and one with a busy node is shut down.
use rmw_microxrcedds.Prelude.{ℕ, ◌+◌, ◌==◌, false, ◌≡◌, ◌⊎◌, refl, true, none, some, [], ◌∷◌}
use rmw_microxrcedds.Prelude.Int.{pos}
use rmw_microxrcedds.Types.{ret_ok, ret_error}
use rmw_microxrcedds.Identifiers.{identifiers_match, eprosima_microxrcedds_identifier}
use rmw_microxrcedds.Samples.{no_stream, two_samples}
use rmw_microxrcedds.Samples.Network.{library, config, busy, pool}
use rmw_microxrcedds.Entity.{with_memory}
use rmw_microxrcedds.Session.{
  SessionLibrary, Storage, RmwContext, zero_context, InitOptions, Middleware, rmw_init,
  rmw_shutdown,
}
use rmw_microxrcedds.Session.Connect.{NotConnected, Connected}
use rmw_microxrcedds.Session.Ping.{AgentLibrary, rmw_uros_ping_agent, rmw_uros_ping_agent_reaches}
use rmw_microxrcedds.Session.Init.{rmw_init-cases}
use rmw_microxrcedds.Session.Shutdown.{IsShutdown, rmw_shutdown-IsShutdown}

-- Everything succeeds, and the state counts nothing.
abbrev session : SessionLibrary ℕ
session = record {
  transport_init = λ c agent. (ret_ok, agent);
  close_transport = λ c agent. agent;
  init_session = λ c key agent. agent;
  create_input_reliable_stream = λ c agent. (no_stream, agent);
  create_output_reliable_stream = λ c agent. (no_stream, agent);
  create_input_best_effort_stream = λ c agent. (no_stream, agent);
  create_output_best_effort_stream = λ c agent. (no_stream, agent);
  create_session = λ c agent. (true, agent);
  delete_session_retries = λ c n agent. agent;
  max_session_connection_attempts = 10;
}

abbrev storage : Storage
storage = record {
  sessions = 10 ∷ 11 ∷ [];
  static_buffers = 1 ∷ 2 ∷ 3 ∷ 4 ∷ [];
  nodes = 20 ∷ 21 ∷ [];
  topics = [];
  publishers = [];
  subscriptions = [];
  services = [];
  clients = [];
  entity_creation_timeout = pos 1;
  entity_destroy_timeout = pos 0;
}

-- Session 10 is in use and session 11 is free; two samples wait.
abbrev running : Middleware ℕ
running = record {
  world = record busy { contexts = with_memory (pool (10 ∷ []) (11 ∷ [])) busy.contexts };
  buffers = two_samples;
  sessions_initialized = true;
  entities_initialized = true;
}

abbrev options : InitOptions
options = record {
  implementation_identifier = some eprosima_microxrcedds_identifier;
  instance_id = 1;
  domain_id = 0;
  client_key = 7;
}

rmw_init-cases_example :
    let r = rmw_init session storage options zero_context running in
    NotConnected session storage running r ⊎ Connected session storage running r
rmw_init-cases_example = rmw_init-cases session storage options zero_context running refl refl

abbrev context : RmwContext
context = record {
  implementation_identifier = some eprosima_microxrcedds_identifier;
  instance_id = 1;
  actual_domain_id = 0;
  impl = some 10;
}

context-match : identifiers_match context.implementation_identifier ≡ true
unfolding identifiers_match
context-match = refl

rmw_shutdown-IsShutdown_example :
    let r = rmw_shutdown library config session context running in
    IsShutdown library config session 10 running r.2 × (r.1.impl ≡ none)
rmw_shutdown-IsShutdown_example =
    rmw_shutdown-IsShutdown library config session context 10 running context-match refl

-- Two sessions, of which only the second reaches the agent. The state counts the pings.
abbrev agents : AgentLibrary ℕ
agents = record {
  transport_init = λ agent. (ret_error, agent);
  ping_agent_attempts = λ timeout attempts agent. (false, agent);
  close_transport = λ agent. agent;
  ping_agent_session = λ x timeout attempts agent. (x == 10, agent + 1);
  sync_session = λ x timeout agent. (true, agent);
  synchronized = λ x agent. true;
  epoch_millis = λ x agent. pos 0;
  epoch_nanos = λ x agent. pos 0;
}

abbrev two_sessions : Middleware ℕ
two_sessions = record running {
  world = record busy { contexts = with_memory (pool (11 ∷ 10 ∷ []) []) busy.contexts };
}

rmw_uros_ping_agent_reaches_example :
    (rmw_uros_ping_agent agents (pos 100) 1 two_sessions).0 ≡ ret_ok
rmw_uros_ping_agent_reaches_example =
    rmw_uros_ping_agent_reaches agents (pos 100) 1 two_sessions 10 refl refl (λ a. refl)
