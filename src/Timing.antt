-- ===== src/Timing.antt =====
-- rmw_microxrcedds_c/src/rmw_microros/timing.c: the timeouts of sessions. `none` is a NULL handle.
pub mod Stream
use rmw_microxrcedds.Prelude.{ℕ, Bool, true, false, not, Option, none, some, ◌==◌, if◌then◌else◌}
use rmw_microxrcedds.Prelude.Int.{ℤ, pos, ltb_ℤ}
use rmw_microxrcedds.Types.{Ptr, RmwRet, ret_ok, ret_invalid_argument, Entities, Service, Client}
use rmw_microxrcedds.Entity.{set_at}
use rmw_microxrcedds.Xrce.{Context, World, set_context}
use rmw_microxrcedds.Publisher.{set_publisher}

module _ {Agent : Type 0} where
  -- `rmw_uros_set_publisher_session_timeout`
  unfoldable pub set_publisher_session_timeout : Option Ptr → ℤ → World Agent → RmwRet × World Agent
  set_publisher_session_timeout none timeout w = (ret_invalid_argument, w)
  set_publisher_session_timeout (some p) timeout w =
      (ret_ok, set_publisher p (record (w.publishers.at p) { session_timeout = timeout }) w)

  -- `rmw_uros_set_context_entity_creation_session_timeout`
  unfoldable pub set_creation_session_timeout : Option Ptr → ℤ → World Agent → RmwRet × World Agent
  set_creation_session_timeout none timeout w = (ret_invalid_argument, w)
  set_creation_session_timeout (some c) timeout w =
      let context = w.contexts.at c in
      (
        ret_ok,
        set_context c
            (record context {
              creation_stream =
                  if ltb_ℤ (pos 0) timeout
                  then context.reliable_output
                  else context.best_effort_output;
              creation_timeout = timeout;
            })
            w,
      )

  -- `rmw_uros_set_context_entity_destroy_session_timeout`
  unfoldable pub set_destroy_session_timeout : Option Ptr → ℤ → World Agent → RmwRet × World Agent
  set_destroy_session_timeout none timeout w = (ret_invalid_argument, w)
  set_destroy_session_timeout (some c) timeout w =
      let context = w.contexts.at c in
      (
        ret_ok,
        set_context c
            (record context {
              destroy_stream =
                  if ltb_ℤ (pos 0) timeout
                  then context.reliable_output
                  else context.best_effort_output;
              destroy_timeout = timeout;
            })
            w,
      )

-- `rmw_uros_set_service_session_timeout`
unfoldable pub set_service_session_timeout :
    Option Ptr → ℤ → Entities Service → RmwRet × Entities Service
set_service_session_timeout none timeout e = (ret_invalid_argument, e)
set_service_session_timeout (some s) timeout e = (
  ret_ok,
  record { memory = e.memory; at = set_at s (record (e.at s) { session_timeout = timeout }) e.at },
)

-- `rmw_uros_set_client_session_timeout`
unfoldable pub set_client_session_timeout :
    Option Ptr → ℤ → Entities Client → RmwRet × Entities Client
set_client_session_timeout none timeout e = (ret_invalid_argument, e)
set_client_session_timeout (some c) timeout e = (
  ret_ok,
  record { memory = e.memory; at = set_at c (record (e.at c) { session_timeout = timeout }) e.at },
)
