-- ===== src/Session/Connect.antt =====
-- `rmw_init` of rmw_microxrcedds_c/src/rmw_init.c with a session from its pool, when the pools are
-- initialised.
use rmw_microxrcedds.Prelude.{
  ℕ, ◌≡◌, refl, sym, ap, ◌∙◌, ◌⊎◌, inl, inr, true, false, Option, none, some, List, ◌∷◌, Bool-cases,
  ==_self, if◌then◌else◌,
}
use rmw_microxrcedds.Prelude.Int.{pos, ltb_ℤ}
use rmw_microxrcedds.Pool
use rmw_microxrcedds.Types.{Ptr, RmwRet, ret_ok, ret_error}
use rmw_microxrcedds.Entity.{with_memory}
use rmw_microxrcedds.Entity.Claim.{put-take}
use rmw_microxrcedds.Xrce.{World, SameEntities}
use rmw_microxrcedds.Session.{
  SessionLibrary, Storage, RmwContext, Middleware, init_pool, init_sessions, init_entities,
  on_world, put_session, reset_context, open_streams, abandon_session, establish, succeeded,
  connect,
}

module _ {Agent : Type 0} (session : SessionLibrary Agent) (storage : Storage) where
  pub init_sessions-ready :
      (m : Middleware Agent) → m.sessions_initialized ≡ true → init_sessions storage m ≡ m
  unfolding init_sessions init_pool
  init_sessions-ready m e =
      (λ i. record m {
        world = record m.world {
          contexts =
              with_memory (init_pool (e i) storage.sessions m.world.contexts.memory)
                m.world.contexts;
        };
        buffers = record {
          memory = init_pool (e i) storage.static_buffers m.buffers.memory;
          slot = m.buffers.slot;
        };
        sessions_initialized = true;
      })
      ∙ (λ i. record m { sessions_initialized = sym e i })

  -- The topics and the entities are the same, and so are the static buffers.
  abbrev pub Untouched : Middleware Agent → Middleware Agent → Type 0
  Untouched m n =
      SameEntities m.world n.world × (n.world.topics ≡ m.world.topics) × (n.buffers ≡ m.buffers)

  init_entities-ready :
      (m : Middleware Agent) → m.entities_initialized ≡ true → Untouched m (init_entities storage m)
  unfolding init_entities init_pool
  init_entities-ready m e = rw e ((refl, refl, refl, refl, refl), refl, refl)

  -- `rmw_init` failed, and has left everything as it was.
  pub record NotConnected (m : Middleware Agent) (r : RmwRet × RmwContext × Middleware Agent)
      : Type 0 where
    pub answer : succeeded session r.0 ≡ false
    pub sessions : r.2.world.contexts.memory ≡ m.world.contexts.memory
    pub rest : Untouched m r.2

  -- The context has the first free session, whose ids start at 0, and which creates entities on the
  -- stream that the timeout asks for.
  pub record Connected (m : Middleware Agent) (r : RmwRet × RmwContext × Middleware Agent)
      : Type 0 where
    pub item : Ptr
    pub items : List Ptr
    pub free : m.world.contexts.memory.free ≡ item ∷ items
    pub answer : r.0 ≡ ret_ok
    pub impl : r.1.impl ≡ some item
    pub sessions :
        r.2.world.contexts.memory
        ≡ record { allocated = item ∷ m.world.contexts.memory.allocated; free = items }
    pub participant : (r.2.world.contexts.at item).id_participant ≡ 0
    pub topic : (r.2.world.contexts.at item).id_topic ≡ 0
    pub creation : (r.2.world.contexts.at item).creation_stream ≡ (
        if ltb_ℤ (pos 0) storage.entity_creation_timeout
        then (r.2.world.contexts.at item).reliable_output
        else (r.2.world.contexts.at item).best_effort_output)
    pub rest : Untouched m r.2

  module _ (m : Middleware Agent) (ready : m.entities_initialized ≡ true) (c : Ptr) (cs : List Ptr)
      (free : m.world.contexts.memory.free ≡ c ∷ cs) where
    -- A world that differs from that of `m` only in the session that was taken.
    record Taken (w : World Agent) : Type 0 where
      pub sessions :
          w.contexts.memory
          ≡ record { allocated = c ∷ m.world.contexts.memory.allocated; free = cs }
      pub same : SameEntities m.world w
      pub topics : w.topics ≡ m.world.topics

    abandoned :
        (w : World Agent)
        → Taken w
        → (abandon_session session c w).contexts.memory ≡ m.world.contexts.memory
    unfolding abandon_session put_session
    abandoned w t =
        ap (Pool.put c) t.sessions
        ∙ put-take m.world.contexts.memory.allocated cs c
        ∙ (λ i. record { allocated = m.world.contexts.memory.allocated; free = sym free i })

    unfoldable pub taken : Middleware Agent
    taken =
        on_world
          (λ w. record w {
            contexts =
                with_memory
                  (record { allocated = c ∷ m.world.contexts.memory.allocated; free = cs })
                  w.contexts;
          })
          m

    -- The session after the pools of the entities are looked at.
    started : Middleware Agent
    started = init_entities storage (on_world (reset_context storage c) taken)

    started-Untouched : Untouched m started
    unfolding started taken reset_context
    started-Untouched = init_entities-ready (on_world (reset_context storage c) taken) ready

    opened : World Agent
    opened = record started.world { agent = (session.transport_init c started.world.agent).1 }

    opened-Taken : Taken opened
    unfolding opened started taken reset_context init_entities
    opened-Taken = record {
      sessions = refl;
      same = started-Untouched.0;
      topics = started-Untouched.1;
    }

    -- A world in which the session went back.
    record Abandoned (w : World Agent) : Type 0 where
      pub sessions : w.contexts.memory ≡ m.world.contexts.memory
      pub same : SameEntities m.world w
      pub topics : w.topics ≡ m.world.topics

    abandon-Abandoned : (w : World Agent) → Taken w → Abandoned (abandon_session session c w)
    abandon-Abandoned w t = record {
      sessions = abandoned w t;
      same = unfold abandon_session put_session in t.same;
      topics = unfold abandon_session put_session in t.topics;
    }

    -- A world with a session that counts from 0 and has its streams.
    record Established (w : World Agent) : Type 0 where
      pub taken : Taken w
      pub participant : (w.contexts.at c).id_participant ≡ 0
      pub topic : (w.contexts.at c).id_topic ≡ 0
      pub creation : (w.contexts.at c).creation_stream ≡ (
          if ltb_ℤ (pos 0) storage.entity_creation_timeout
          then (w.contexts.at c).reliable_output
          else (w.contexts.at c).best_effort_output)

    streams-Established :
        (w : World Agent)
        → Taken w
        → (w.contexts.at c).id_participant ≡ 0
        → (w.contexts.at c).id_topic ≡ 0
        → Established (open_streams session storage c w)
    unfolding open_streams
    streams-Established w t participant topic = record {
      taken = record { sessions = t.sessions; same = t.same; topics = t.topics };
      participant = rw (==_self c) participant;
      topic = rw (==_self c) topic;
      creation = rw (==_self c) refl;
    }

    agent-Established :
        (w : World Agent) (agent : Agent) → Established w → Established (record w { agent = agent })
    agent-Established w agent e = record {
      taken = record { sessions = e.taken.sessions; same = e.taken.same; topics = e.taken.topics };
      participant = e.participant;
      topic = e.topic;
      creation = e.creation;
    }

    establish-cases :
        (client_key : ℕ) (w : World Agent)
        → Taken w
        → (w.contexts.at c).id_participant ≡ 0
        → (w.contexts.at c).id_topic ≡ 0
        → let e = establish session storage client_key c w in
          ((e.0 ≡ true) × Established e.1) ⊎ ((e.0 ≡ false) × Abandoned e.1)
    unfolding establish
    establish-cases client_key w t participant topic =
        let v = record w { agent = session.init_session c client_key w.agent } in
        let w₁ = open_streams session storage c v in
        let (created, agent) = session.create_session c w₁.agent in
        let e =
          streams-Established v (record { sessions = t.sessions; same = t.same; topics = t.topics })
            participant topic in
        let e₂ = agent-Established w₁ agent e in
        elim (Bool-cases created) [
          | inl z ↦ rw z (inl (refl, e₂))
          | inr z ↦ rw z (inr (refl, abandon-Abandoned (record w₁ { agent = agent }) e₂.taken))
        ]

    started-ids :
        ((started.world.contexts.at c).id_participant ≡ 0)
        × ((started.world.contexts.at c).id_topic ≡ 0)
    unfolding started init_entities reset_context
    started-ids = (rw (==_self c) refl, rw (==_self c) refl)

    Abandoned-NotConnected :
        (ret : RmwRet) (context : RmwContext) (impl : Option Ptr) (n : Middleware Agent)
        → succeeded session ret ≡ false
        → Abandoned n.world
        → n.buffers ≡ m.buffers
        → NotConnected m (ret, record context { impl = impl }, n)
    Abandoned-NotConnected ret context impl n bad a buffers = record {
      answer = bad;
      sessions = a.sessions;
      rest = (a.same, a.topics, buffers);
    }

    pub connect-cases :
        (client_key : ℕ) (context : RmwContext)
        → let r = connect session storage client_key c taken in
          let out : RmwRet × RmwContext × Middleware Agent =
            (r.0, record context { impl = r.1 }, r.2) in
          NotConnected m out ⊎ Connected m out
    unfolding connect opened
    connect-cases client_key context =
        let ret = (session.transport_init c started.world.agent).0 in
        let buffers = started-Untouched.2 in
        elim (Bool-cases (succeeded session ret)) [
          | inr bad ↦
              unfold started in
              (rw bad (
                inl (
                  Abandoned-NotConnected ret context none
                    (record started { world = abandon_session session c opened }) bad
                    (unfold opened in (abandon-Abandoned opened opened-Taken)) buffers)))
          | inl ok ↦
              elim (establish-cases client_key opened opened-Taken (unfold opened in started-ids.0)
                (unfold opened in started-ids.1)) [
                  | inl (z, e) ↦
                      unfold started opened in
                      (rw (ok, z)
                        (inr (record {
                          item = c;
                          items = cs;
                          free = free;
                          answer = refl;
                          impl = refl;
                          sessions = e.taken.sessions;
                          participant = e.participant;
                          topic = e.topic;
                          creation = e.creation;
                          rest = (e.taken.same, e.taken.topics, buffers);
                        })))
                  | inr (z, a) ↦
                      unfold started opened in
                      (rw (ok, z)
                        (inl (
                          Abandoned-NotConnected ret_error context none
                            (record started {
                              world = (establish session storage client_key c opened).1;
                            })
                            (unfold succeeded in refl) a buffers)))
                ]
        ]
