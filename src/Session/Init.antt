-- ===== src/Session/Init.antt =====
-- `rmw_init` of rmw_microxrcedds_c/src/rmw_init.c when the pools are initialised: a session is
-- taken, or everything is as it was.
use rmw_microxrcedds.Prelude.{ℕ, ◌≡◌, refl, ◌⊎◌, inl, inr, true, some, List, [], ◌∷◌, Bool-cases}
use rmw_microxrcedds.Pool
use rmw_microxrcedds.Types.{Ptr, RmwRet}
use rmw_microxrcedds.Identifiers.{identifiers_match, eprosima_microxrcedds_identifier}
use rmw_microxrcedds.Session.{
  SessionLibrary, Storage, RmwContext, InitOptions, Middleware, succeeded, session_in, rmw_init,
}
use rmw_microxrcedds.Session.Connect.{
  Untouched, NotConnected, Connected, taken, connect-cases, init_sessions-ready,
}

module _ {Agent : Type 0} (session : SessionLibrary Agent) (storage : Storage) where
  untouched : (m : Middleware Agent) → Untouched session storage m m
  untouched m = ((refl, refl, refl, refl, refl), refl, refl)

  session_in-cases :
      (client_key : ℕ) (context : RmwContext) (m : Middleware Agent) (free : List Ptr)
      → m.entities_initialized ≡ true
      → m.world.contexts.memory.free ≡ free
      → let r =
          session_in session storage client_key context.impl
            (Pool.take m.world.contexts.memory.allocated free)
            m in
        let out : RmwRet × RmwContext × Middleware Agent =
          (r.0, record context { impl = r.1 }, r.2) in
        NotConnected session storage m out ⊎ Connected session storage m out
  unfolding session_in Pool.take
  session_in-cases client_key context m [] ready e =
      inl (record { answer = unfold succeeded in refl; sessions = refl; rest = untouched m })
  session_in-cases client_key context m (c ∷ cs) ready e =
      unfold taken in (connect-cases session storage m ready c cs e client_key context)

  -- When the pools are initialised, `rmw_init` either answers RMW_RET_OK and gives the context the
  -- first free session, whose counters of participants and topics start at 0 and whose stream for
  -- creations is the one that the configured timeout asks for, or it answers something else and the
  -- pool of sessions is as it was, whatever step failed. In both cases no topic, no node, no entity
  -- of another context and no static buffer is changed.
  pub rmw_init-cases :
      (options : InitOptions) (context : RmwContext) (m : Middleware Agent)
      → m.sessions_initialized ≡ true
      → m.entities_initialized ≡ true
      → let r = rmw_init session storage options context m in
        NotConnected session storage m r ⊎ Connected session storage m r
  unfolding rmw_init Pool.get
  rmw_init-cases options context m sessions entities =
      elim (Bool-cases (identifiers_match options.implementation_identifier)) [
        | inl e ↦
            rw (e, init_sessions-ready session storage m sessions)
              (session_in-cases options.client_key
                (record {
                  implementation_identifier = some eprosima_microxrcedds_identifier;
                  instance_id = options.instance_id;
                  actual_domain_id = options.domain_id;
                  impl = context.impl;
                })
                m m.world.contexts.memory.free entities refl)
        | inr e ↦ rw e (
            inl (record { answer = unfold succeeded in refl; sessions = refl; rest = untouched m }))
      ]
