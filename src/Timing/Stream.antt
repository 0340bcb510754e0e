-- ===== src/Timing/Stream.antt =====
-- What a timeout that is not positive means for the creation of topics.
use rmw_microxrcedds.Prelude.{ℕ, ◌≡◌, refl, ◌∙◌, true, false, some, List, ==_self}
use rmw_microxrcedds.Prelude.Int.{ℤ, pos, ltb_ℤ}
use rmw_microxrcedds.Types.{Ptr, StreamId, StreamType, best_effort_stream}
use rmw_microxrcedds.Xrce.{
  XrceRequest, XrceLibrary, Config, World, run_xrce_session, ask, ask_creation,
}
use rmw_microxrcedds.Topic.{ask_topic}
use rmw_microxrcedds.Timing.{set_creation_session_timeout}

module _ {Agent : Type 0} (library : XrceLibrary Agent) where
  ask-best_effort :
      (context : Ptr) (stream : StreamId) (type : StreamType) (timeout : ℤ) (request : XrceRequest)
      (agent : Agent)
      → stream.type ≡ type
      → type ≡ best_effort_stream
      → (ask library context stream timeout request agent).0 ≡ true
  unfolding ask run_xrce_session
  ask-best_effort context stream type timeout request agent e e' = rw (e ∙ e') refl

  -- After the timeout for the creation of entities is set to one that is not positive, on a context
  -- whose best-effort output is a best-effort stream, the session for a new topic of that context
  -- always succeeds: nothing waits for an answer.
  pub set_creation_session_timeout-asks :
      (config : Config) (c node t : Ptr) (timeout : ℤ) (full_topic_name type_name : List ℕ)
      (w : World Agent)
      → ltb_ℤ (pos 0) timeout ≡ false
      → (w.contexts.at c).best_effort_output.type ≡ best_effort_stream
      → (w.nodes.at node).context ≡ c
      → (ask_topic library config node full_topic_name type_name t
          (set_creation_session_timeout (some c) timeout w).1).0
        ≡ true
  unfolding set_creation_session_timeout ask_topic ask_creation
  set_creation_session_timeout-asks config c node t timeout full_topic_name type_name w short best
        e =
      ask-best_effort _ _ best_effort_stream _ _ _ (rw (e, ==_self c, short) best) refl
