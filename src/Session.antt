-- ===== src/Session.antt =====
-- Contexts: `rmw_init`, `rmw_context_fini` and `rmw_shutdown` of rmw_init.c
-- (rmw_microxrcedds_c/src), in the build without RMW_UXRCE_GRAPH, with the pools of types.c that
-- they initialise.
pub mod Connect
pub mod Keeps
pub mod Init
pub mod Shutdown
pub mod Ping
mod Tests
use Prim.Native.String.{String}
use mathlib.Core.List.{reverse}
use rmw_microxrcedds.Prelude.{
  ℕ, Bool, true, false, not, Option, none, some, List, [], ◌∷◌, ◌==◌, if◌then◌else◌,
}
use rmw_microxrcedds.Prelude.Int.{ℤ, pos, ltb_ℤ}
use rmw_microxrcedds.Pool
use rmw_microxrcedds.Types.{
  Ptr, StreamId, StreamType, best_effort_stream, reliable_stream, RmwRet, ret_ok, ret_error,
  ret_incorrect_rmw_implementation, Entities, Buffers,
}
use rmw_microxrcedds.Identifiers.{identifiers_match, eprosima_microxrcedds_identifier}
use rmw_microxrcedds.Entity.{set_entity, with_memory}
use rmw_microxrcedds.Xrce.{XrceLibrary, Config, Context, World, set_context}
use rmw_microxrcedds.Node.{rmw_destroy_node}

-- The transport and the session of a context in the client library: opening and closing, the four
-- streams, and UXR_CONFIG_MAX_SESSION_CONNECTION_ATTEMPTS.
pub record SessionLibrary (Agent : Type 0) : Type 0 where
  pub transport_init : Ptr → Agent → RmwRet × Agent
  pub close_transport : Ptr → Agent → Agent
  pub init_session : Ptr → ℕ → Agent → Agent
  pub create_input_reliable_stream : Ptr → Agent → StreamId × Agent
  pub create_output_reliable_stream : Ptr → Agent → StreamId × Agent
  pub create_input_best_effort_stream : Ptr → Agent → StreamId × Agent
  pub create_output_best_effort_stream : Ptr → Agent → StreamId × Agent
  pub create_session : Ptr → Agent → Bool × Agent
  pub delete_session_retries : Ptr → ℕ → Agent → Agent
  pub max_session_connection_attempts : ℕ

-- The arrays of the entities, and the timeouts of the configuration.
pub record Storage : Type 0 where
  pub sessions : List Ptr
  pub static_buffers : List Ptr
  pub nodes : List Ptr
  pub topics : List Ptr
  pub publishers : List Ptr
  pub subscriptions : List Ptr
  pub services : List Ptr
  pub clients : List Ptr
  pub entity_creation_timeout : ℤ
  pub entity_destroy_timeout : ℤ

-- `rmw_context_t`; `none` is a NULL `impl`.
pub record RmwContext : Type 0 where
  pub implementation_identifier : Option String
  pub instance_id : ℕ
  pub actual_domain_id : ℕ
  pub impl : Option Ptr

-- `rmw_get_zero_initialized_context`
abbrev pub zero_context : RmwContext
zero_context = record {
  implementation_identifier = none;
  instance_id = 0;
  actual_domain_id = 0;
  impl = none;
}

-- `rmw_init_options_t`, with the client key of its `impl`.
pub record InitOptions : Type 0 where
  pub implementation_identifier : Option String
  pub instance_id : ℕ
  pub domain_id : ℕ
  pub client_key : ℕ

-- All pools. The flags `is_initialized` of those of the sessions and of the static buffers are set
-- together, and so are those of the other entities.
pub record Middleware (Agent : Type 0) : Type 0 where
  pub world : World Agent
  pub buffers : Buffers
  pub sessions_initialized : Bool
  pub entities_initialized : Bool

-- RMW_INIT_MEMORY: each item of the array is put into the free list.
unfoldable pub init_pool : Bool → List Ptr → Pool.Pool → Pool.Pool
init_pool initialized items p =
    if initialized then p else record { allocated = []; free = reverse items }

module _ {Agent : Type 0} where
  -- The pools that `rmw_init` initialises before it takes a session.
  unfoldable pub init_sessions : Storage → Middleware Agent → Middleware Agent
  unfolding init_pool
  init_sessions storage m =
      let w = m.world in
      record m {
        world = record w {
          contexts =
              with_memory (init_pool m.sessions_initialized storage.sessions w.contexts.memory)
                w.contexts;
        };
        buffers = record {
          memory = init_pool m.sessions_initialized storage.static_buffers m.buffers.memory;
          slot = m.buffers.slot;
        };
        sessions_initialized = true;
      }

  -- Those that it initialises after.
  unfoldable pub init_entities : Storage → Middleware Agent → Middleware Agent
  unfolding init_pool
  init_entities storage m =
      let w = m.world in
      let ready = m.entities_initialized in
      record m {
        world = record w {
          nodes = with_memory (init_pool ready storage.nodes w.nodes.memory) w.nodes;
          topics = with_memory (init_pool ready storage.topics w.topics.memory) w.topics;
          publishers =
              with_memory (init_pool ready storage.publishers w.publishers.memory) w.publishers;
          subscriptions =
              with_memory (init_pool ready storage.subscriptions w.subscriptions.memory)
                w.subscriptions;
          services = with_memory (init_pool ready storage.services w.services.memory) w.services;
          clients = with_memory (init_pool ready storage.clients w.clients.memory) w.clients;
        };
        entities_initialized = true;
      }

  abbrev pub on_world : (World Agent → World Agent) → Middleware Agent → Middleware Agent
  on_world f m = record m { world = f m.world }

  -- `put_memory(&session_memory, &context_impl->mem)`
  unfoldable pub put_session : Ptr → World Agent → World Agent
  put_session c w = record w { contexts = with_memory (Pool.put c w.contexts.memory) w.contexts }

  -- The fields of a new session before its transport is open.
  unfoldable pub reset_context : Storage → Ptr → World Agent → World Agent
  reset_context storage c w =
      set_context c
        (record (w.contexts.at c) {
          creation_timeout = storage.entity_creation_timeout;
          destroy_timeout = storage.entity_destroy_timeout;
          id_participant = 0;
          id_topic = 0;
          id_publisher = 0;
          id_datawriter = 0;
          id_subscriber = 0;
          id_datareader = 0;
          id_requester = 0;
          id_replier = 0;
        })
        w

module _ {Agent : Type 0} (session : SessionLibrary Agent) where
  -- The streams of a new session. The pointers to two of them, which `rmw_init` sets earlier, are
  -- read only from here on.
  unfoldable pub open_streams : Storage → Ptr → World Agent → World Agent
  open_streams storage c w =
      let (reliable_input, a₁) = session.create_input_reliable_stream c w.agent in
      let (reliable_output, a₂) = session.create_output_reliable_stream c a₁ in
      let (best_effort_input, a₃) = session.create_input_best_effort_stream c a₂ in
      let (best_effort_output, a₄) = session.create_output_best_effort_stream c a₃ in
      set_context c
        (record (w.contexts.at c) {
          reliable_input = reliable_input;
          reliable_output = reliable_output;
          best_effort_input = best_effort_input;
          best_effort_output = best_effort_output;
          creation_stream =
              if ltb_ℤ (pos 0) storage.entity_creation_timeout
              then reliable_output
              else best_effort_output;
          destroy_stream =
              if ltb_ℤ (pos 0) storage.entity_destroy_timeout
              then reliable_output
              else best_effort_output;
        })
        (record w { agent = a₄ })

  -- What `rmw_init` does when a step fails: the transport is closed, and the session goes back.
  unfoldable pub abandon_session : Ptr → World Agent → World Agent
  unfolding put_session
  abandon_session c w = put_session c (record w { agent = session.close_transport c w.agent })

  -- The transport is open.
  unfoldable pub establish : Storage → ℕ → Ptr → World Agent → Bool × World Agent
  establish storage client_key c w =
      let w₁ =
        open_streams storage c (record w { agent = session.init_session c client_key w.agent }) in
      let (created, agent) = session.create_session c w₁.agent in
      let w₂ = record w₁ { agent = agent } in
      (created, if created then w₂ else abandon_session c w₂)

  unfoldable pub succeeded : RmwRet → Bool
  succeeded ret_ok = true
  succeeded _ = false

  -- `rmw_init` with a session from the pool.
  unfoldable pub connect :
      Storage → ℕ → Ptr → Middleware Agent → RmwRet × Option Ptr × Middleware Agent
  connect storage client_key c m =
      let m₁ = init_entities storage (on_world (reset_context storage c) m) in
      let (ret, agent) = session.transport_init c m₁.world.agent in
      let opened = record m₁.world { agent = agent } in
      let (created, established) = establish storage client_key c opened in
      if succeeded ret
      then (
        if created then ret_ok else ret_error,
        if created then some c else none,
        record m₁ { world = established },
      )
      else (ret, none, record m₁ { world = abandon_session c opened })

  unfoldable pub session_in :
      Storage
      → ℕ
      → Option Ptr
      → Option Ptr × Pool.Pool
      → Middleware Agent
      → RmwRet × Option Ptr × Middleware Agent
  session_in storage client_key impl (none, memory) m = (ret_error, impl, m)
  session_in storage client_key impl (some c, memory) m =
      connect storage client_key c
        (on_world (λ w. record w { contexts = with_memory memory w.contexts }) m)

  -- `rmw_init` behind its checks of arguments for NULL, with the context that it fills.
  unfoldable pub rmw_init :
      Storage → InitOptions → RmwContext → Middleware Agent → RmwRet × RmwContext × Middleware Agent
  rmw_init storage options context m =
      let m₁ = init_sessions storage m in
      let (ret, impl, m₂) =
        session_in storage options.client_key context.impl (Pool.get m₁.world.contexts.memory) m₁ in
      if identifiers_match options.implementation_identifier
      then (
        ret,
        record {
          implementation_identifier = some eprosima_microxrcedds_identifier;
          instance_id = options.instance_id;
          actual_domain_id = options.domain_id;
          impl = impl;
        },
        m₂,
      )
      else (ret_incorrect_rmw_implementation, context, m)

  -- The number of retries for a stream of that type.
  unfoldable pub retries : StreamType → ℕ
  retries best_effort_stream = 0
  retries reliable_stream = session.max_session_connection_attempts

  -- The end of the session of a context.
  unfoldable pub close_session : Option Ptr → World Agent → World Agent
  unfolding put_session
  close_session none w = w
  close_session (some c) w =
      let deleted =
        session.delete_session_retries c (retries (w.contexts.at c).destroy_stream.type) w.agent in
      let w₁ = put_session c (record w { agent = deleted }) in
      record w₁ { agent = session.close_transport c w₁.agent }

unfoldable pub belongs : Option Ptr → Ptr → Bool
belongs none context = context == 0
belongs (some c) context = context == c

module _ {Agent : Type 0} (library : XrceLibrary Agent) (config : Config)
    (session : SessionLibrary Agent) where
  -- The loop of `rmw_context_fini` over the allocated nodes: it keeps the answer for the last node
  -- of the context.
  unfoldable pub destroy_nodes : Option Ptr → List Ptr → RmwRet → World Agent → RmwRet × World Agent
  destroy_nodes impl [] ret w = (ret, w)
  destroy_nodes impl (x ∷ xs) ret w =
      let (ret', w') = rmw_destroy_node library config x w in
      let rest' = destroy_nodes impl xs ret' w' in
      let rest = destroy_nodes impl xs ret w in
      if belongs impl (w.nodes.at x).context then rest' else rest

  -- `rmw_context_fini`
  unfoldable pub rmw_context_fini : RmwContext → World Agent → RmwRet × RmwContext × World Agent
  rmw_context_fini context w =
      let (ret, w₁) = destroy_nodes context.impl w.nodes.memory.allocated ret_ok w in
      (ret, record context { impl = none }, close_session session context.impl w₁)

  -- The loop of `rmw_shutdown` over the allocated static buffers.
  unfoldable pub release_buffers : List Ptr → Buffers → Buffers
  release_buffers [] b = b
  release_buffers (x ∷ xs) b =
      release_buffers xs (record { memory = Pool.put x b.memory; slot = b.slot })

  -- `rmw_shutdown` behind its check of the argument for NULL.
  unfoldable pub rmw_shutdown :
      RmwContext → Middleware Agent → RmwRet × RmwContext × Middleware Agent
  rmw_shutdown context m =
      let (ret, context', w) = rmw_context_fini context m.world in
      let buffers = release_buffers m.buffers.memory.allocated m.buffers in
      if identifiers_match context.implementation_identifier
      then (
        ret,
        if succeeded session ret then zero_context else context',
        record m { world = w; buffers = buffers },
      )
      else (ret_incorrect_rmw_implementation, context, m)
