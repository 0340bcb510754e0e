-- ===== src/Session/Ping.antt =====
-- Asking for the agent, and its clock: rmw_microros/ping.c and rmw_microros/time_sync.c
-- (rmw_microxrcedds_c/src), which take their session from the pool of sessions.
use rmw_microxrcedds.Prelude.{
  ℕ, ◌≡◌, ◌↔◌, refl, sym, ap, ◌∙◌, inl, inr, Bool, true, false, List, [], ◌∷◌, has, arith,
  Bool-cases, ◌==◌, ==_iff, if◌then◌else◌,
}
use rmw_microxrcedds.Prelude.Int.{ℤ, pos}
use rmw_microxrcedds.Types.{Ptr, RmwRet, ret_ok, ret_error}
use rmw_microxrcedds.Session.{Middleware}

-- What the client library does on the state `Agent` of its sessions and transports: a transport of
-- its own for a ping, a ping over a session, and the clock of a session.
pub record AgentLibrary (Agent : Type 0) : Type 0 where
  pub transport_init : Agent → RmwRet × Agent
  pub ping_agent_attempts : ℤ → ℕ → Agent → Bool × Agent
  pub close_transport : Agent → Agent
  pub ping_agent_session : Ptr → ℤ → ℕ → Agent → Bool × Agent
  pub sync_session : Ptr → ℤ → Agent → Bool × Agent
  pub synchronized : Ptr → Agent → Bool
  pub epoch_millis : Ptr → Agent → ℤ
  pub epoch_nanos : Ptr → Agent → ℤ

module _ {Agent : Type 0} (library : AgentLibrary Agent) where
  -- The loop over the allocated sessions: a session, and those after it.
  unfoldable pub ping_sessions : ℤ → ℕ → Ptr → List Ptr → Agent → Bool × Agent
  ping_sessions timeout_ms attempts x [] agent =
      library.ping_agent_session x timeout_ms attempts agent
  ping_sessions timeout_ms attempts x (y ∷ ys) agent =
      let (success, agent') = library.ping_agent_session x timeout_ms attempts agent in
      let rest = ping_sessions timeout_ms attempts y ys agent' in
      if success then (true, agent') else rest

  -- A ping over a transport of its own.
  unfoldable pub ping_transport : ℤ → ℕ → RmwRet × Agent → RmwRet × Agent
  ping_transport timeout_ms attempts (ret_ok, agent) =
      let (success, agent') = library.ping_agent_attempts timeout_ms attempts agent in
      (if success then ret_ok else ret_error, library.close_transport agent')
  ping_transport timeout_ms attempts (ret, agent) = (ret, agent)

  -- The branches of `rmw_uros_ping_agent`, on whether the sessions are initialised and those in
  -- use.
  unfoldable pub ping_from : ℤ → ℕ → Bool → List Ptr → Agent → RmwRet × Agent
  unfolding ping_sessions ping_transport
  ping_from timeout_ms attempts true (x ∷ xs) agent =
      let (success, agent') = ping_sessions timeout_ms attempts x xs agent in
      (if success then ret_ok else ret_error, agent')
  ping_from timeout_ms attempts _ _ agent =
      ping_transport timeout_ms attempts (library.transport_init agent)

  -- `rmw_uros_ping_agent`
  unfoldable pub rmw_uros_ping_agent : ℤ → ℕ → Middleware Agent → RmwRet × Agent
  unfolding ping_from
  rmw_uros_ping_agent timeout_ms attempts m =
      ping_from timeout_ms attempts m.sessions_initialized m.world.contexts.memory.allocated
        m.world.agent

  -- `rmw_uros_ping_agent_options`, with a transport that has the parameters of the options.
  unfoldable pub rmw_uros_ping_agent_options :
      (Agent → RmwRet × Agent) → ℤ → ℕ → Agent → RmwRet × Agent
  unfolding ping_transport
  rmw_uros_ping_agent_options transport_init timeout_ms attempts agent =
      ping_transport timeout_ms attempts (transport_init agent)

  -- `rmw_uros_epoch_synchronized`, on the sessions in use
  unfoldable pub rmw_uros_epoch_synchronized : List Ptr → Agent → Bool
  rmw_uros_epoch_synchronized [] agent = false
  rmw_uros_epoch_synchronized (x ∷ xs) agent = library.synchronized x agent

  -- `rmw_uros_epoch_millis`
  unfoldable pub rmw_uros_epoch_millis : List Ptr → Agent → ℤ
  rmw_uros_epoch_millis [] agent = pos 0
  rmw_uros_epoch_millis (x ∷ xs) agent = library.epoch_millis x agent

  -- `rmw_uros_epoch_nanos`
  unfoldable pub rmw_uros_epoch_nanos : List Ptr → Agent → ℤ
  rmw_uros_epoch_nanos [] agent = pos 0
  rmw_uros_epoch_nanos (x ∷ xs) agent = library.epoch_nanos x agent

  -- `rmw_uros_sync_session`
  unfoldable pub rmw_uros_sync_session : ℤ → List Ptr → Agent → RmwRet × Agent
  rmw_uros_sync_session timeout_ms [] agent = (ret_error, agent)
  rmw_uros_sync_session timeout_ms (x ∷ xs) agent =
      let (done, agent') = library.sync_session x timeout_ms agent in
      (if done then ret_ok else ret_error, agent')

  -- Some session answers, after those before it in the list did not.
  pub data Answered (timeout_ms : ℤ) (attempts : ℕ) : List Ptr → Agent → Type 0 where
    at_once :
        {x : Ptr} {xs : List Ptr} {agent : Agent}
        → (library.ping_agent_session x timeout_ms attempts agent).0 ≡ true
        → Answered timeout_ms attempts (x ∷ xs) agent
    later :
        {x : Ptr} {xs : List Ptr} {agent : Agent}
        → (library.ping_agent_session x timeout_ms attempts agent).0 ≡ false
        → Answered timeout_ms attempts xs (library.ping_agent_session x timeout_ms attempts agent).1
        → Answered timeout_ms attempts (x ∷ xs) agent

  module _ (timeout_ms : ℤ) (attempts : ℕ) where
    answered :
        (x : Ptr) (xs : List Ptr) (agent : Agent)
        → (ping_sessions timeout_ms attempts x xs agent).0 ≡ true
        → Answered timeout_ms attempts (x ∷ xs) agent
    unfolding ping_sessions
    answered x [] agent h = at_once h
    answered x (y ∷ ys) agent h =
        let ping = library.ping_agent_session x timeout_ms attempts agent in
        elim (Bool-cases ping.0) [
          | inl e ↦ at_once e
          | inr e ↦ later e (
              answered y ys ping.1 (
                sym (
                  ap
                    (λ (b : Bool).
                      (if b
                        then (true, ping.1)
                        else ping_sessions timeout_ms attempts y ys ping.1).0)
                    e)
                ∙ h))
        ]

    -- The list that was answered is not empty.
    succeeds :
        (x : Ptr) (xs : List Ptr) (agent : Agent)
        → Answered timeout_ms attempts (x ∷ xs) agent
        → (ping_sessions timeout_ms attempts x xs agent).0 ≡ true
    unfolding ping_sessions
    succeeds x [] agent (at_once h) = h
    succeeds x [] agent (later h a) = elim a [ ]
    succeeds x (y ∷ ys) agent (at_once h) = rw h refl
    succeeds x (y ∷ ys) agent (later h a) =
        rw h (succeeds y ys (library.ping_agent_session x timeout_ms attempts agent).1 a)

    answer_ok : (b : Bool) → ((if b then ret_ok else ret_error) ≡ ret_ok) ↔ (b ≡ true)
    answer_ok true = (λ h. refl, λ h. refl)
    answer_ok false = (λ h. absurd (ground (arith, h)), λ h. absurd (ground (arith, h)))

    -- With sessions in use, `rmw_uros_ping_agent` answers RMW_RET_OK exactly when the agent answers
    -- over one of them, which is asked after those before it in the list did not get an answer.
    pub rmw_uros_ping_agent_iff :
        (m : Middleware Agent) (x : Ptr) (xs : List Ptr)
        → m.sessions_initialized ≡ true
        → m.world.contexts.memory.allocated ≡ x ∷ xs
        → ((rmw_uros_ping_agent timeout_ms attempts m).0 ≡ ret_ok)
          ↔ Answered timeout_ms attempts (x ∷ xs) m.world.agent
    unfolding rmw_uros_ping_agent ping_from
    rmw_uros_ping_agent_iff m x xs ready used =
        let answer = answer_ok (ping_sessions timeout_ms attempts x xs m.world.agent).0 in
        let same : (rmw_uros_ping_agent timeout_ms attempts m).0
            ≡ (ping_from timeout_ms attempts true (x ∷ xs) m.world.agent).0 =
          ap
            (λ (b : Bool).
              (ping_from timeout_ms attempts b m.world.contexts.memory.allocated m.world.agent).0)
            ready
          ∙ ap (λ (l : List Ptr). (ping_from timeout_ms attempts true l m.world.agent).0) used in
        (
          λ h. answered x xs m.world.agent (answer.0 (sym same ∙ h)),
          λ a. same ∙ answer.1 (succeeds x xs m.world.agent a),
        )

    reaches :
        (x : Ptr) (ys : List Ptr) (agent : Agent)
        → has x ys ≡ true
        → ((a : Agent) → (library.ping_agent_session x timeout_ms attempts a).0 ≡ true)
        → Answered timeout_ms attempts ys agent
    reaches x [] agent h always = absurd (ground (arith, h))
    reaches x (y ∷ ys) agent h always =
        let ping = library.ping_agent_session y timeout_ms attempts agent in
        elim (Bool-cases ping.0) [
          | inl e ↦ at_once e
          | inr e ↦ elim (Bool-cases (x == y)) [
            | inl same ↦
                let x_y : x ≡ y = (==_iff x y).0 same in
                let yes =
                  ap (λ (z : Ptr). (library.ping_agent_session z timeout_ms attempts agent).0)
                    (sym x_y)
                  ∙ always agent in
                absurd (ground (arith, e, yes))
            | inr other ↦ later e (reaches x ys ping.1 (ground (arith, h, other)) always)
          ]
        ]

    reaches_in :
        (m : Middleware Agent) (x : Ptr) (sessions : List Ptr)
        → m.sessions_initialized ≡ true
        → m.world.contexts.memory.allocated ≡ sessions
        → has x sessions ≡ true
        → ((a : Agent) → (library.ping_agent_session x timeout_ms attempts a).0 ≡ true)
        → (rmw_uros_ping_agent timeout_ms attempts m).0 ≡ ret_ok
    reaches_in m x [] ready used h always = absurd (ground (arith, h))
    reaches_in m x (y ∷ ys) ready used h always =
        (rmw_uros_ping_agent_iff m y ys ready used).1 (reaches x (y ∷ ys) m.world.agent h always)

    -- If the agent answers over a session in use whenever it is asked, `rmw_uros_ping_agent`
    -- answers RMW_RET_OK, whatever the sessions before that one do.
    pub rmw_uros_ping_agent_reaches :
        (m : Middleware Agent) (x : Ptr)
        → m.sessions_initialized ≡ true
        → has x m.world.contexts.memory.allocated ≡ true
        → ((a : Agent) → (library.ping_agent_session x timeout_ms attempts a).0 ≡ true)
        → (rmw_uros_ping_agent timeout_ms attempts m).0 ≡ ret_ok
    rmw_uros_ping_agent_reaches m x ready used always =
        reaches_in m x m.world.contexts.memory.allocated ready refl used always

  -- If the client library's session is synchronised after a synchronisation that succeeded, then so
  -- `rmw_uros_epoch_synchronized` says after `rmw_uros_sync_session` answered RMW_RET_OK.
  pub rmw_uros_sync_session-synchronized :
      (timeout_ms : ℤ) (sessions : List Ptr) (agent : Agent)
      → ((x : Ptr) (a : Agent)
          → (library.sync_session x timeout_ms a).0 ≡ true
          → library.synchronized x (library.sync_session x timeout_ms a).1 ≡ true)
      → (rmw_uros_sync_session timeout_ms sessions agent).0 ≡ ret_ok
      → rmw_uros_epoch_synchronized sessions (rmw_uros_sync_session timeout_ms sessions agent).1
        ≡ true
  unfolding rmw_uros_sync_session rmw_uros_epoch_synchronized
  rmw_uros_sync_session-synchronized timeout_ms [] agent law h = absurd (ground (arith, h))
  rmw_uros_sync_session-synchronized timeout_ms (x ∷ xs) agent law h =
      law x agent ((answer_ok timeout_ms 0 (library.sync_session x timeout_ms agent).0).0 h)
