-- ===== src/Node/Create.antt =====
-- `rmw_create_node` of rmw_microxrcedds_c/src/rmw_node.c: the pool of nodes, and the new node.
use rmw_microxrcedds.Prelude.{
  ℕ, ◌+◌, ◌≡◌, ◌≢◌, refl, sym, ap, ◌∙◌, ◌⊎◌, inl, inr, true, false, ◌||◌, Option, none, some, List,
  [], ◌∷◌, arith, Bool-cases, ==_self, ◌==◌, has, length, ltb,
}
use rmw_microxrcedds.Pool
use rmw_microxrcedds.Types.{Ptr}
use rmw_microxrcedds.Identifiers.{identifiers_match}
use rmw_microxrcedds.Entity.{with_memory, claim, free_entity}
use rmw_microxrcedds.Entity.Claim.{
  Claimed, set-Claimed, valid-Claimed, IsHandle, new_identifier, put-take,
}
use rmw_microxrcedds.Xrce.{XrceLibrary, Config, World, ask_creation}
use rmw_microxrcedds.Node.{
  node_handle, set_node, ContextHandle, fini_node_memory, fail_node, claim_node, ask_participant,
  place_node, node_in, create_node, rmw_create_node,
}

-- The other entities are the same.
abbrev pub SameButNodes : {Agent : Type 0} → World Agent → World Agent → Type 0
SameButNodes w v =
    (v.topics ≡ w.topics)
    × (v.publishers ≡ w.publishers)
    × (v.subscriptions ≡ w.subscriptions)
    × (v.services ≡ w.services)
    × (v.clients ≡ w.clients)

-- Nothing was created, and the pool is as it was.
pub record NoNode {Agent : Type 0} (w : World Agent) (r : Option Ptr × World Agent) : Type 0 where
  pub returns : r.0 ≡ none
  pub memory : r.1.nodes.memory ≡ w.nodes.memory
  pub rest : SameButNodes w r.1

-- The first free node was created, in the context and with the names.
pub record NewNode {Agent : Type 0} (context : ContextHandle) (name namespace : List ℕ)
    (w : World Agent) (r : Option Ptr × World Agent) : Type 0 where
  pub item : Ptr
  pub items : List Ptr
  pub free : w.nodes.memory.free ≡ item ∷ items
  pub returns : r.0 ≡ some item
  pub memory :
      r.1.nodes.memory ≡ record { allocated = item ∷ w.nodes.memory.allocated; free = items }
  pub impl : (r.1.nodes.at item).context ≡ context.impl
  pub node_name : (r.1.nodes.at item).node_name ≡ name
  pub node_namespace : (r.1.nodes.at item).node_namespace ≡ namespace
  pub accepted : IsHandle (r.1.nodes.at item).handle
  pub rest : SameButNodes w r.1

module _ {Agent : Type 0} (library : XrceLibrary Agent) (config : Config) (context : ContextHandle)
    (name namespace : List ℕ) (w : World Agent) (n : Ptr) (items : List Ptr) (ne : n ≢ 0)
    (free : w.nodes.memory.free ≡ n ∷ items) where
  abbrev Own : World Agent → Type 0
  Own v =
      Claimed node_handle w.nodes n items ne v.nodes
      × ((v.nodes.at n).context ≡ context.impl)
      × SameButNodes w v

  fini-Own : (v : World Agent) → Own v → NoNode w (none, fini_node_memory n v)
  unfolding fini_node_memory free_entity
  fini-Own v (held, impl, rest) =
      let match : identifiers_match (v.nodes.at n).handle.implementation_identifier ≡ true =
        ap identifiers_match held.identifier ∙ new_identifier in
      let set : ((v.nodes.at n).handle.contents == 0) ≡ false = ground (arith, held.contents) in
      rw (match, set)
        (record {
          returns = refl;
          memory =
              ap (Pool.put n) held.memory
              ∙ put-take w.nodes.memory.allocated items n
              ∙ (λ i. record { allocated = w.nodes.memory.allocated; free = sym free i });
          rest = rest;
        })

  place-Own :
      (v : World Agent)
      → Own v
      → let r = place_node library config name namespace context.actual_domain_id n v in
        NoNode w r ⊎ NewNode context name namespace w r
  unfolding place_node fail_node
  place-Own v (held, impl, rest) =
      let w₁ = set_node n (record (v.nodes.at n) { node_name = name }) v in
      let h₁ =
        set-Claimed node_handle w.nodes n items ne v.nodes
          (record (v.nodes.at n) { node_name = name }) held refl in
      let o₁ : Own w₁ = (h₁, rw (==_self n) impl, rest) in
      let w' = set_node n (record (w₁.nodes.at n) { node_namespace = namespace }) w₁ in
      let h' =
        set-Claimed node_handle w.nodes n items ne w₁.nodes
          (record (w₁.nodes.at n) { node_namespace = namespace }) h₁ refl in
      let asked = ask_participant library config name namespace context.actual_domain_id n w' in
      let h₂ : Claimed node_handle w.nodes n items ne asked.1.nodes =
        unfold ask_participant ask_creation in
        (set-Claimed node_handle w.nodes n items ne w'.nodes _ h' refl) in
      let impl₂ : (asked.1.nodes.at n).context ≡ context.impl =
        unfold ask_participant ask_creation in (rw (==_self n) impl) in
      let rest₂ : SameButNodes w asked.1 = unfold ask_participant ask_creation in rest in
      elim (Bool-cases (ltb config.node_name_max_length (length namespace + 1))) [
        | inl e ↦ rw e (inl (fini-Own w₁ o₁))
        | inr e ↦ elim (Bool-cases asked.0) [
          | inl e' ↦
              rw (e, e')
                (inr (record {
                  item = n;
                  items = items;
                  free = free;
                  returns = refl;
                  memory = h₂.memory;
                  impl = impl₂;
                  node_name = unfold ask_participant ask_creation in (rw (==_self n) refl);
                  node_namespace = unfold ask_participant ask_creation in (rw (==_self n) refl);
                  accepted = valid-Claimed node_handle w.nodes n items ne asked.1.nodes h₂;
                  rest = rest₂;
                }))
          | inr e' ↦ rw (e, e') (inl (fini-Own asked.1 (h₂, impl₂, rest₂)))
        ]
      ]

module _ {Agent : Type 0} (library : XrceLibrary Agent) (config : Config) where
  node_in-cases :
      (context : ContextHandle) (name namespace : List ℕ) (w : World Agent) (free : List Ptr)
      → w.nodes.memory.free ≡ free
      → has 0 free ≡ false
      → let r =
          node_in library config name namespace context.actual_domain_id context.impl
            (Pool.take w.nodes.memory.allocated free)
            w in
        NoNode w r ⊎ NewNode context name namespace w r
  unfolding node_in Pool.take fail_node
  node_in-cases context name namespace w [] e nz =
      inl (record { returns = refl; memory = refl; rest = (refl, refl, refl, refl, refl) })
  node_in-cases context name namespace w (n ∷ items) e nz =
      let ne : n ≢ 0 = ground (arith, nz) in
      let v : World Agent = record w {
        nodes =
            with_memory (record { allocated = n ∷ w.nodes.memory.allocated; free = items }) w.nodes;
      } in
      let w₁ = claim_node context.impl n v in
      let o₁ : Own library config context name namespace w n items ne e w₁ =
        unfold claim_node claim in
        (
          record {
            memory = refl;
            contents = rw (==_self n) refl;
            identifier = rw (==_self n) refl;
          },
          rw (==_self n) refl,
          (refl, refl, refl, refl, refl),
        ) in
      elim (Bool-cases (ltb config.node_name_max_length (length name + 1))) [
        | inl t ↦ rw t (inl (fini-Own library config context name namespace w n items ne e w₁ o₁))
        | inr t ↦ rw t (place-Own library config context name namespace w n items ne e w₁ o₁)
      ]

  -- With no NULL among the free nodes, `rmw_create_node` either creates the first free node, with
  -- the context's implementation, the names, and a handle that the functions on nodes accept, or
  -- returns NULL with the pool of nodes as it was, whatever step failed. It changes no other
  -- entity.
  pub rmw_create_node-cases :
      (context : ContextHandle) (name namespace : List ℕ) (w : World Agent)
      → has 0 w.nodes.memory.free ≡ false
      → let r = rmw_create_node library config context name namespace w in
        NoNode w r ⊎ NewNode context name namespace w r
  unfolding rmw_create_node create_node Pool.get
  rmw_create_node-cases context name namespace w nz =
      elim (Bool-cases ((length name == 0) || (length namespace == 0))) [
        | inl e ↦
            rw e (
              inl (record { returns = refl; memory = refl; rest = (refl, refl, refl, refl, refl) }))
        | inr e ↦ rw e (node_in-cases context name namespace w w.nodes.memory.free refl nz)
      ]
