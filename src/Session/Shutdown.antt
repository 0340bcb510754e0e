-- ===== src/Session/Shutdown.antt =====
-- `rmw_shutdown` of rmw_microxrcedds_c/src/rmw_init.c: the static buffers and the session.
use mathlib.Core.List.{reverse_aux}
use rmw_microxrcedds.Prelude.{
  ◌≡◌, refl, ap, ◌∙◌, true, none, some, List, [], ◌∷◌, ==_self, if◌then◌else◌, Bool-cases, inl, inr,
}
use rmw_microxrcedds.Pool
use rmw_microxrcedds.Types.{Ptr, Buffers, ret_ok}
use rmw_microxrcedds.Identifiers.{identifiers_match}
use rmw_microxrcedds.Xrce.{XrceLibrary, Config}
use rmw_microxrcedds.Session.{
  SessionLibrary, RmwContext, zero_context, Middleware, put_session, close_session, destroy_nodes,
  rmw_context_fini, release_buffers, succeeded, rmw_shutdown,
}
use rmw_microxrcedds.Session.Keeps.{destroy_nodes-Keeps}

module _ {Agent : Type 0} (library : XrceLibrary Agent) (config : Config)
    (session : SessionLibrary Agent) where
  release-all :
      (xs ys : List Ptr) (b : Buffers)
      → b.memory ≡ record { allocated = xs; free = ys }
      → (release_buffers library config session xs b).memory
        ≡ record { allocated = []; free = reverse_aux xs ys }
  unfolding release_buffers Pool.put
  release-all [] ys b e = e
  release-all (x ∷ xs) ys b e =
      release-all xs (x ∷ ys) (record { memory = Pool.put x b.memory; slot = b.slot })
        (ap (Pool.put x) e ∙ rw (==_self x) refl)

  impl_none :
      (context : RmwContext) (m : Middleware Agent)
      → let (ret, context', w) = rmw_context_fini library config session context m.world in
        (if succeeded session ret then zero_context else context').impl ≡ none
  unfolding rmw_context_fini
  impl_none context m =
      let (ret, w) =
        destroy_nodes library config session context.impl m.world.nodes.memory.allocated ret_ok
          m.world in
      elim (Bool-cases (succeeded session ret)) [ inl e ↦ rw e refl | inr e ↦ rw e refl ]

  -- The session of the context is back in its pool, and no static buffer is in use.
  pub record IsShutdown (c : Ptr) (m n : Middleware Agent) : Type 0 where
    pub sessions : n.world.contexts.memory ≡ Pool.put c m.world.contexts.memory
    pub allocated : n.buffers.memory.allocated ≡ []
    pub free : n.buffers.memory.free ≡ reverse_aux m.buffers.memory.allocated m.buffers.memory.free

  -- After `rmw_shutdown` of a context with a session, whatever it answers, that session is back in
  -- its pool, the context has none, and every static buffer is free, also those of other contexts.
  pub rmw_shutdown-IsShutdown :
      (context : RmwContext) (c : Ptr) (m : Middleware Agent)
      → identifiers_match context.implementation_identifier ≡ true
      → context.impl ≡ some c
      → let r = rmw_shutdown library config session context m in
        IsShutdown c m r.2 × (r.1.impl ≡ none)
  unfolding rmw_shutdown rmw_context_fini
  rmw_shutdown-IsShutdown context c m match impl =
      let k =
        destroy_nodes-Keeps library config session (some c) m.world.nodes.memory.allocated ret_ok
          m.world in
      let b = release-all m.buffers.memory.allocated m.buffers.memory.free m.buffers refl in
      rw match (
        record {
          sessions = rw impl (unfold close_session put_session in (λ i. Pool.put c (k i).memory));
          allocated = λ i. (b i).allocated;
          free = λ i. (b i).free;
        },
        impl_none context m,
      )
