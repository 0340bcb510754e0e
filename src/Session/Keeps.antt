-- ===== src/Session/Keeps.antt =====
-- Destroying the entities of a node, or the node, leaves the pool of sessions alone
-- (rmw_microxrcedds_c/src/rmw_node.c, rmw_init.c).
use rmw_microxrcedds.Prelude.{◌≡◌, refl, ◌∙◌, inl, inr, List, [], ◌∷◌, Bool-cases, ◌==◌, Option}
use rmw_microxrcedds.Types.{Ptr, RmwRet, ret_ok, Handle}
use rmw_microxrcedds.Identifiers.{identifiers_match}
use rmw_microxrcedds.Endpoint.{refused}
use rmw_microxrcedds.Xrce.{
  XrceLibrary, Config, World, ask_destroy, ask_delete_both, cancel_data, delete_entity,
}
use rmw_microxrcedds.Topic.{destroy_topic, delete_topic, fini_topic_memory}
use rmw_microxrcedds.Publisher.Destroy.{destroy_publisher, delete_publisher}
use rmw_microxrcedds.Subscription.Destroy.{destroy_subscription, delete_subscription}
use rmw_microxrcedds.Service.{destroy_service, delete_service}
use rmw_microxrcedds.Client.{destroy_client, delete_client}
use rmw_microxrcedds.Node.{
  is_error, fini_node_memory, destroy_each, destroy_publishers, destroy_subscriptions,
  destroy_services, destroy_clients, empty_node, delete_node, rmw_destroy_node,
}
use rmw_microxrcedds.Session.{SessionLibrary, belongs, destroy_nodes}

module _ {Agent : Type 0} (library : XrceLibrary Agent) (config : Config) where
  -- The pool of sessions stays.
  abbrev Keeps : World Agent → RmwRet × World Agent → Type 0
  Keeps w r = r.1.contexts ≡ w.contexts

  destroy_topic-Keeps : (t : Ptr) (w : World Agent) → Keeps w (destroy_topic library config t w)
  unfolding destroy_topic delete_topic fini_topic_memory ask_destroy
  destroy_topic-Keeps t w = elim (Bool-cases ((w.topics.at t).owner_node == 0)) [
    | inl e ↦ rw e refl
    | inr e ↦ rw e refl
  ]

  publisher-Keeps :
      (node : Handle) (p : Ptr) (w : World Agent)
      → Keeps w (destroy_publisher library config node p w)
  unfolding destroy_publisher delete_publisher ask_delete_both
  publisher-Keeps node p w = elim (Bool-cases (refused node (w.publishers.at p).handle)) [
    | inl e ↦ rw e refl
    | inr e ↦ rw e (destroy_topic-Keeps (w.publishers.at p).topic w)
  ]

  subscription-Keeps :
      (node : Handle) (s : Ptr) (w : World Agent)
      → Keeps w (destroy_subscription library config node s w)
  unfolding destroy_subscription delete_subscription ask_delete_both ask_destroy
  subscription-Keeps node s w =
      let w₁ =
        (ask_destroy library (w.subscriptions.at s).owner_node
          (cancel_data (w.subscriptions.at s).datareader_id) w).1 in
      elim (Bool-cases (refused node (w.subscriptions.at s).handle)) [
        | inl e ↦ rw e refl
        | inr e ↦ rw e (destroy_topic-Keeps (w.subscriptions.at s).topic w₁)
      ]

  service-Keeps :
      (node : Handle) (s : Ptr) (w : World Agent)
      → Keeps w (destroy_service library config node s w)
  unfolding destroy_service delete_service ask_destroy
  service-Keeps node s w = elim (Bool-cases (refused node (w.services.at s).handle)) [
    | inl e ↦ rw e refl
    | inr e ↦ rw e refl
  ]

  client-Keeps :
      (node : Handle) (c : Ptr) (w : World Agent) → Keeps w (destroy_client library config node c w)
  unfolding destroy_client delete_client ask_destroy
  client-Keeps node c w = elim (Bool-cases (refused node (w.clients.at c).handle)) [
    | inl e ↦ rw e refl
    | inr e ↦ rw e refl
  ]

  each-Keeps :
      (owner : World Agent → Ptr → Ptr)
      (destroy : Handle → Ptr → World Agent → RmwRet × World Agent)
      → ((h : Handle) (x : Ptr) (w : World Agent) → Keeps w (destroy h x w))
      → (n : Ptr) (xs : List Ptr) (ret : RmwRet) (w : World Agent)
      → Keeps w (destroy_each owner destroy n xs ret w)
  unfolding destroy_each
  each-Keeps owner destroy keeps n [] ret w = refl
  each-Keeps owner destroy keeps n (x ∷ xs) ret w =
      let r = destroy (w.nodes.at n).handle x w in
      let k = keeps (w.nodes.at n).handle x w in
      let rest = each-Keeps owner destroy keeps n xs r.0 r.1 in
      let skip = each-Keeps owner destroy keeps n xs ret w in
      elim (Bool-cases (owner w x == n)) [
        | inl e ↦ elim (Bool-cases (is_error r.0)) [
          | inl e' ↦ rw (e, e') k
          | inr e' ↦ rw (e, e') (rest ∙ k)
        ]
        | inr e ↦ rw e skip
      ]

  publishers-Keeps :
      (n : Ptr) (ret : RmwRet) (w : World Agent)
      → Keeps w (destroy_publishers library config n ret w)
  unfolding destroy_publishers
  publishers-Keeps n ret w =
      each-Keeps (λ w x. (w.publishers.at x).owner_node) (destroy_publisher library config)
        publisher-Keeps n w.publishers.memory.allocated ret w

  subscriptions-Keeps :
      (n : Ptr) (ret : RmwRet) (w : World Agent)
      → Keeps w (destroy_subscriptions library config n ret w)
  unfolding destroy_subscriptions
  subscriptions-Keeps n ret w =
      each-Keeps (λ w x. (w.subscriptions.at x).owner_node) (destroy_subscription library config)
        subscription-Keeps n w.subscriptions.memory.allocated ret w

  services-Keeps :
      (n : Ptr) (ret : RmwRet) (w : World Agent) → Keeps w (destroy_services library config n ret w)
  unfolding destroy_services
  services-Keeps n ret w =
      each-Keeps (λ w x. (w.services.at x).owner_node) (destroy_service library config)
        service-Keeps n w.services.memory.allocated ret w

  clients-Keeps :
      (n : Ptr) (ret : RmwRet) (w : World Agent) → Keeps w (destroy_clients library config n ret w)
  unfolding destroy_clients
  clients-Keeps n ret w =
      each-Keeps (λ w x. (w.clients.at x).owner_node) (destroy_client library config) client-Keeps n
        w.clients.memory.allocated ret w

  empty-Keeps : (n : Ptr) (w : World Agent) → Keeps w (empty_node library config n w)
  unfolding empty_node
  empty-Keeps n w =
      let (r₁, w₁) = destroy_publishers library config n ret_ok w in
      let (r₂, w₂) = destroy_subscriptions library config n r₁ w₁ in
      let (r₃, w₃) = destroy_services library config n r₂ w₂ in
      let k₁ = publishers-Keeps n ret_ok w in
      let k₂ = subscriptions-Keeps n r₁ w₁ in
      let k₃ = services-Keeps n r₂ w₂ in
      let k₄ = clients-Keeps n r₃ w₃ in
      elim (Bool-cases (is_error r₁)) [
        | inl e ↦ rw e k₁
        | inr e ↦ elim (Bool-cases (is_error r₂)) [
          | inl f ↦ rw (e, f) (k₂ ∙ k₁)
          | inr f ↦ elim (Bool-cases (is_error r₃)) [
            | inl g ↦ rw (e, f, g) (k₃ ∙ k₂ ∙ k₁)
            | inr g ↦ rw (e, f, g) (k₄ ∙ k₃ ∙ k₂ ∙ k₁)
          ]
        ]
      ]

  fini_node-Keeps : (n : Ptr) (w : World Agent) → (fini_node_memory n w).contexts ≡ w.contexts
  unfolding fini_node_memory
  fini_node-Keeps n w =
      let d = w.nodes.at n in
      elim (Bool-cases (identifiers_match d.handle.implementation_identifier)) [
        | inl e ↦ elim (Bool-cases (d.handle.contents == 0)) [
          | inl f ↦ rw (e, f) refl
          | inr f ↦ rw (e, f) refl
        ]
        | inr e ↦ rw e refl
      ]

  delete_node-Keeps :
      (n : Ptr) (ret : RmwRet) (w : World Agent) → Keeps w (delete_node library config n ret w)
  unfolding delete_node ask_destroy
  delete_node-Keeps n ret w =
      fini_node-Keeps n (ask_destroy library n (delete_entity (w.nodes.at n).participant_id) w).1

  node-Keeps : (n : Ptr) (w : World Agent) → Keeps w (rmw_destroy_node library config n w)
  unfolding rmw_destroy_node
  node-Keeps n w =
      let d = w.nodes.at n in
      let (ret, w₁) = empty_node library config n w in
      let k = empty-Keeps n w in
      elim (Bool-cases (identifiers_match d.handle.implementation_identifier)) [
        | inl e ↦ elim (Bool-cases (d.handle.contents == 0)) [
          | inl f ↦ rw (e, f) refl
          | inr f ↦ elim (Bool-cases (is_error ret)) [
            | inl g ↦ rw (e, f, g) k
            | inr g ↦ rw (e, f, g) (delete_node-Keeps n ret w₁ ∙ k)
          ]
        ]
        | inr e ↦ rw e refl
      ]

  pub destroy_nodes-Keeps :
      (session : SessionLibrary Agent) (impl : Option Ptr) (xs : List Ptr) (ret : RmwRet)
      (w : World Agent)
      → Keeps w (destroy_nodes library config session impl xs ret w)
  unfolding destroy_nodes
  destroy_nodes-Keeps session impl [] ret w = refl
  destroy_nodes-Keeps session impl (x ∷ xs) ret w =
      let r = rmw_destroy_node library config x w in
      let k = node-Keeps x w in
      let rest = destroy_nodes-Keeps session impl xs r.0 r.1 in
      let skip = destroy_nodes-Keeps session impl xs ret w in
      elim (Bool-cases (belongs impl (w.nodes.at x).context)) [
        | inl e ↦ rw e (rest ∙ k)
        | inr e ↦ rw e skip
      ]
