-- ===== src/Node/Destroy.antt =====
-- `rmw_destroy_node` of rmw_microxrcedds_c/src/rmw_node.c: what is left of the pools.
use rmw_microxrcedds.Prelude.{
  ◌≡◌, refl, ap, ◌∙◌, Bool, true, false, ==_self, ◌==◌, if◌then◌else◌, Distinct,
}
use rmw_microxrcedds.Pool
use rmw_microxrcedds.Types.{
  Ptr, RmwRet, ret_ok, ret_timeout, Entities, Subscription, Service, Client,
}
use rmw_microxrcedds.Entity.{no_handle, free_entity}
use rmw_microxrcedds.Entity.Claim.{IsHandle, valid-match}
use rmw_microxrcedds.Xrce.{XrceLibrary, Config, World, Publisher, ask_destroy, delete_entity}
use rmw_microxrcedds.Publisher.Destroy.{destroy_publisher}
use rmw_microxrcedds.Subscription.Destroy.{destroy_subscription}
use rmw_microxrcedds.Service.{destroy_service}
use rmw_microxrcedds.Client.{destroy_client}
use rmw_microxrcedds.Node.{
  is_error, fini_node_memory, delete_node, empty_node, rmw_destroy_node, destroy_publishers,
  destroy_subscriptions, destroy_services, destroy_clients,
}
use rmw_microxrcedds.Node.Kinds.{
  SamePublishers, SameSubscriptions, SameServices, SameClients, publisher-Destroys,
  subscription-Destroys, service-Destroys, client-Destroys,
}
use rmw_microxrcedds.Node.Clear.{Cleared, Handles, owned, cleared, destroy_each-Cleared}

module _ {Agent : Type 0} (library : XrceLibrary Agent) (config : Config) (n : Ptr) where
  -- The node, and every allocated entity that belongs to it, has its handle, and no item is
  -- allocated twice.
  pub record IsNode (w : World Agent) : Type 0 where
    pub node : IsHandle (w.nodes.at n).handle
    pub publishers_once : Distinct w.publishers.memory.allocated
    pub subscriptions_once : Distinct w.subscriptions.memory.allocated
    pub services_once : Distinct w.services.memory.allocated
    pub clients_once : Distinct w.clients.memory.allocated
    pub publishers :
        Handles World.publishers Publisher.owner_node n Publisher.handle w
          w.publishers.memory.allocated
    pub subscriptions :
        Handles World.subscriptions Subscription.owner_node n Subscription.handle w
          w.subscriptions.memory.allocated
    pub services :
        Handles World.services Service.owner_node n Service.handle w w.services.memory.allocated
    pub clients :
        Handles World.clients Client.owner_node n Client.handle w w.clients.memory.allocated

  -- The pools without the entities of the node.
  pub record Emptied (w : World Agent) (r : RmwRet × World Agent) : Type 0 where
    pub answer : is_error r.0 ≡ false
    pub publishers :
        r.1.publishers.memory
        ≡ cleared (owned World.publishers Publisher.owner_node n w) w.publishers.memory
    pub subscriptions :
        r.1.subscriptions.memory
        ≡ cleared (owned World.subscriptions Subscription.owner_node n w) w.subscriptions.memory
    pub services :
        r.1.services.memory
        ≡ cleared (owned World.services Service.owner_node n w) w.services.memory
    pub clients :
        r.1.clients.memory ≡ cleared (owned World.clients Client.owner_node n w) w.clients.memory
    pub nodes : r.1.nodes ≡ w.nodes

  module _ (w : World Agent) (i : IsNode w) where
    accepted : (v : World Agent) → v.nodes ≡ w.nodes → IsHandle (v.nodes.at n).handle
    accepted v same = record { valid = rw same i.node.valid; set = rw same i.node.set }

    publishers-Cleared :
        (ret : RmwRet) (v : World Agent)
        → is_error ret ≡ false
        → v.nodes ≡ w.nodes
        → v.publishers ≡ w.publishers
        → Cleared World.publishers Publisher.owner_node n SamePublishers v
            (destroy_publishers library config n ret v)
    unfolding destroy_publishers
    publishers-Cleared ret v ok nodes same =
        destroy_each-Cleared World.publishers Publisher.owner_node Publisher.handle
          (destroy_publisher library config) SamePublishers n w (λ v. (refl, refl, refl))
          (λ u v t a b. (b.0 ∙ a.0, b.1 ∙ a.1, b.2 ∙ a.2))
          (λ v x e j. publisher-Destroys library config (v.nodes.at n).handle (accepted v e) v x j)
          ret v ok nodes (rw same i.publishers_once) (rw same i.publishers)

    subscriptions-Cleared :
        (ret : RmwRet) (v : World Agent)
        → is_error ret ≡ false
        → v.nodes ≡ w.nodes
        → v.subscriptions ≡ w.subscriptions
        → Cleared World.subscriptions Subscription.owner_node n SameSubscriptions v
            (destroy_subscriptions library config n ret v)
    unfolding destroy_subscriptions
    subscriptions-Cleared ret v ok nodes same =
        destroy_each-Cleared World.subscriptions Subscription.owner_node Subscription.handle
          (destroy_subscription library config) SameSubscriptions n w (λ v. (refl, refl, refl))
          (λ u v t a b. (b.0 ∙ a.0, b.1 ∙ a.1, b.2 ∙ a.2))
          (λ v x e j.
            subscription-Destroys library config (v.nodes.at n).handle (accepted v e) v x j)
          ret v ok nodes (rw same i.subscriptions_once) (rw same i.subscriptions)

    services-Cleared :
        (ret : RmwRet) (v : World Agent)
        → is_error ret ≡ false
        → v.nodes ≡ w.nodes
        → v.services ≡ w.services
        → Cleared World.services Service.owner_node n SameServices v
            (destroy_services library config n ret v)
    unfolding destroy_services
    services-Cleared ret v ok nodes same =
        destroy_each-Cleared World.services Service.owner_node Service.handle
          (destroy_service library config) SameServices n w (λ v. (refl, refl, refl))
          (λ u v t a b. (b.0 ∙ a.0, b.1 ∙ a.1, b.2 ∙ a.2))
          (λ v x e j. service-Destroys library config (v.nodes.at n).handle (accepted v e) v x j)
          ret v ok nodes (rw same i.services_once) (rw same i.services)

    clients-Cleared :
        (ret : RmwRet) (v : World Agent)
        → is_error ret ≡ false
        → v.nodes ≡ w.nodes
        → v.clients ≡ w.clients
        → Cleared World.clients Client.owner_node n SameClients v
            (destroy_clients library config n ret v)
    unfolding destroy_clients
    clients-Cleared ret v ok nodes same =
        destroy_each-Cleared World.clients Client.owner_node Client.handle
          (destroy_client library config) SameClients n w (λ v. (refl, refl, refl))
          (λ u v t a b. (b.0 ∙ a.0, b.1 ∙ a.1, b.2 ∙ a.2))
          (λ v x e j. client-Destroys library config (v.nodes.at n).handle (accepted v e) v x j) ret
          v ok nodes (rw same i.clients_once) (rw same i.clients)

    -- The four loops one after the other.
    empty_node-Emptied : Emptied w (empty_node library config n w)
    unfolding empty_node
    empty_node-Emptied =
        let (r₁, w₁) = destroy_publishers library config n ret_ok w in
        let (r₂, w₂) = destroy_subscriptions library config n r₁ w₁ in
        let (r₃, w₃) = destroy_services library config n r₂ w₂ in
        let c₁ = publishers-Cleared ret_ok w (unfold is_error in refl) refl refl in
        let c₂ = subscriptions-Cleared r₁ w₁ c₁.answer c₁.nodes c₁.rest.0 in
        let services₂ : w₂.services ≡ w.services = c₂.rest.1 ∙ c₁.rest.1 in
        let c₃ = services-Cleared r₂ w₂ c₂.answer (c₂.nodes ∙ c₁.nodes) services₂ in
        let nodes₃ : w₃.nodes ≡ w.nodes = c₃.nodes ∙ c₂.nodes ∙ c₁.nodes in
        let clients₃ : w₃.clients ≡ w.clients = c₃.rest.2 ∙ c₂.rest.2 ∙ c₁.rest.2 in
        let c₄ = clients-Cleared r₃ w₃ c₃.answer nodes₃ clients₃ in
        rw (c₁.answer, c₂.answer, c₃.answer)
          (record {
            answer = c₄.answer;
            publishers = ap Entities.memory (c₄.rest.0 ∙ c₃.rest.0 ∙ c₂.rest.0) ∙ c₁.memory;
            subscriptions =
                ap Entities.memory (c₄.rest.1 ∙ c₃.rest.1)
                ∙ c₂.memory
                ∙ (λ k. cleared (λ y. (((c₁.rest.0 k).at y).owner_node == n)) (c₁.rest.0 k).memory);
            services =
                ap Entities.memory c₄.rest.2
                ∙ c₃.memory
                ∙ (λ k. cleared (λ y. (((services₂ k).at y).owner_node == n)) (services₂ k).memory);
            clients =
                c₄.memory
                ∙ (λ k. cleared (λ y. (((clients₃ k).at y).owner_node == n)) (clients₃ k).memory);
            nodes = c₄.nodes ∙ nodes₃;
          })

    fini_node-gone :
        (v : World Agent)
        → v.nodes ≡ w.nodes
        → ((fini_node_memory n v).nodes.memory ≡ Pool.put n w.nodes.memory)
          × (((fini_node_memory n v).nodes.at n).handle ≡ no_handle)
    unfolding fini_node_memory free_entity
    fini_node-gone v same =
        rw (same, valid-match _ i.node.valid, i.node.set) (refl, rw (==_self n) refl)

    fini_node-pools :
        (v : World Agent)
        → v.nodes ≡ w.nodes
        → let u = fini_node_memory n v in
          (u.publishers ≡ v.publishers)
          × (u.subscriptions ≡ v.subscriptions)
          × (u.services ≡ v.services)
          × (u.clients ≡ v.clients)
    unfolding fini_node_memory
    fini_node-pools v same =
        rw (same, valid-match _ i.node.valid, i.node.set) (refl, refl, refl, refl)

  -- The entities of the node have left its pools, and the node too.
  pub record Destroyed (w : World Agent) (r : RmwRet × World Agent) : Type 0 where
    pub answer : is_error r.0 ≡ false
    pub publishers :
        r.1.publishers.memory
        ≡ cleared (owned World.publishers Publisher.owner_node n w) w.publishers.memory
    pub subscriptions :
        r.1.subscriptions.memory
        ≡ cleared (owned World.subscriptions Subscription.owner_node n w) w.subscriptions.memory
    pub services :
        r.1.services.memory
        ≡ cleared (owned World.services Service.owner_node n w) w.services.memory
    pub clients :
        r.1.clients.memory ≡ cleared (owned World.clients Client.owner_node n w) w.clients.memory
    pub node : r.1.nodes.memory ≡ Pool.put n w.nodes.memory
    pub handle : (r.1.nodes.at n).handle ≡ no_handle

  delete_answer :
      (ret : RmwRet) (done : Bool)
      → is_error ret ≡ false
      → is_error (if done then ret else ret_timeout) ≡ false
  delete_answer ret true e = e
  delete_answer ret false e = unfold is_error in refl

  delete-Destroyed :
      (w : World Agent)
      → IsNode w
      → (r : RmwRet × World Agent) → Emptied w r
      → Destroyed w (delete_node library config n r.0 r.1)
  unfolding delete_node ask_destroy
  delete-Destroyed w i (ret, v) e =
      let (done, u) = ask_destroy library n (delete_entity (v.nodes.at n).participant_id) v in
      let gone = fini_node-gone w i u e.nodes in
      let (publishers, subscriptions, services, clients) = fini_node-pools w i u e.nodes in
      record {
        answer = delete_answer ret done e.answer;
        publishers = ap Entities.memory publishers ∙ e.publishers;
        subscriptions = ap Entities.memory subscriptions ∙ e.subscriptions;
        services = ap Entities.memory services ∙ e.services;
        clients = ap Entities.memory clients ∙ e.clients;
        node = gone.0;
        handle = gone.1;
      }

  -- If the node and each of its allocated entities has its handle, and no item is allocated twice,
  -- `rmw_destroy_node` does not answer RMW_RET_ERROR. Of each kind, exactly the entities of the
  -- node leave the allocated ones, which keep their order, and they are put before the free ones;
  -- the node goes back to its pool and loses its handle. So it is whether or not the agent answers
  -- in time.
  pub rmw_destroy_node-Destroyed :
      (w : World Agent) → IsNode w → Destroyed w (rmw_destroy_node library config n w)
  unfolding rmw_destroy_node
  rmw_destroy_node-Destroyed w i =
      let e = empty_node-Emptied w i in
      rw (valid-match _ i.node.valid, i.node.set, e.answer)
        (delete-Destroyed w i (empty_node library config n w) e)
