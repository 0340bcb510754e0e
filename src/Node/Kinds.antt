-- ===== src/Node/Kinds.antt =====
-- What the destruction of one entity of each kind leaves, for the loops of `rmw_destroy_node`
-- (rmw_microxrcedds_c/src/rmw_node.c).
use rmw_microxrcedds.Prelude.{◌≡◌, refl, Bool, true, false, if◌then◌else◌}
use rmw_microxrcedds.Types.{Ptr, ret_ok, ret_timeout, Handle, Subscription, Service, Client}
use rmw_microxrcedds.Entity.Claim.{IsHandle, fini-Freed}
use rmw_microxrcedds.Endpoint.Handles.{refused-IsHandle}
use rmw_microxrcedds.Xrce.{
  XrceLibrary, Config, World, Publisher, ask_destroy, ask_delete_both, cancel_data,
}
use rmw_microxrcedds.Topic.Memory.{destroy_topic-SameEntities}
use rmw_microxrcedds.Publisher.{publisher_handle}
use rmw_microxrcedds.Publisher.Destroy.{destroy_publisher, delete_publisher}
use rmw_microxrcedds.Subscription.{subscription_handle}
use rmw_microxrcedds.Subscription.Destroy.{destroy_subscription, delete_subscription}
use rmw_microxrcedds.Service.{service_handle, destroy_service, delete_service}
use rmw_microxrcedds.Client.{client_handle, destroy_client, delete_client}
use rmw_microxrcedds.Node.{is_error}
use rmw_microxrcedds.Node.Clear.{Destroys}

done_answer : (done : Bool) → is_error (if done then ret_ok else ret_timeout) ≡ false
unfolding is_error
done_answer true = refl
done_answer false = refl

-- The pools that a loop leaves alone.
module _ {Agent : Type 0} where
  abbrev pub SamePublishers : World Agent → World Agent → Type 0
  SamePublishers w v =
      (v.subscriptions ≡ w.subscriptions) × (v.services ≡ w.services) × (v.clients ≡ w.clients)

  abbrev pub SameSubscriptions : World Agent → World Agent → Type 0
  SameSubscriptions w v =
      (v.publishers ≡ w.publishers) × (v.services ≡ w.services) × (v.clients ≡ w.clients)

  abbrev pub SameServices : World Agent → World Agent → Type 0
  SameServices w v =
      (v.publishers ≡ w.publishers) × (v.subscriptions ≡ w.subscriptions) × (v.clients ≡ w.clients)

  abbrev pub SameClients : World Agent → World Agent → Type 0
  SameClients w v =
      (v.publishers ≡ w.publishers)
      × (v.subscriptions ≡ w.subscriptions)
      × (v.services ≡ w.services)

module _ {Agent : Type 0} (library : XrceLibrary Agent) (config : Config) (handle : Handle)
    (accepted : IsHandle handle) where
  pub publisher-Destroys :
      (w : World Agent) (x : Ptr)
      → IsHandle (w.publishers.at x).handle
      → Destroys World.publishers Publisher.owner_node Publisher.handle
          (destroy_publisher library config)
          SamePublishers
          x
          w
          (destroy_publisher library config handle x w)
  unfolding destroy_publisher delete_publisher ask_delete_both
  publisher-Destroys w x i =
      let (nodes, publishers, subscriptions, services, clients) =
        destroy_topic-SameEntities library config (w.publishers.at x).topic w in
      let freed =
        fini-Freed publisher_handle Publisher.owner_node (λ a. refl) x w.publishers _ publishers
          i in
      rw (refused-IsHandle handle (w.publishers.at x).handle accepted i) (record {
        answer = done_answer _;
        memory = freed.memory;
        others = freed.others;
        owners = freed.fields;
        nodes = nodes;
        rest = (subscriptions, services, clients);
      })

  pub subscription-Destroys :
      (w : World Agent) (x : Ptr)
      → IsHandle (w.subscriptions.at x).handle
      → Destroys World.subscriptions Subscription.owner_node Subscription.handle
          (destroy_subscription library config)
          SameSubscriptions
          x
          w
          (destroy_subscription library config handle x w)
  unfolding destroy_subscription delete_subscription ask_delete_both ask_destroy
  subscription-Destroys w x i =
      let w₁ =
        (ask_destroy library (w.subscriptions.at x).owner_node
          (cancel_data (w.subscriptions.at x).datareader_id) w).1 in
      let (nodes, publishers, subscriptions, services, clients) =
        destroy_topic-SameEntities library config (w.subscriptions.at x).topic w₁ in
      let freed =
        fini-Freed subscription_handle Subscription.owner_node (λ a. refl) x w.subscriptions _
          subscriptions i in
      rw (refused-IsHandle handle (w.subscriptions.at x).handle accepted i) (record {
        answer = done_answer _;
        memory = freed.memory;
        others = freed.others;
        owners = freed.fields;
        nodes = nodes;
        rest = (publishers, services, clients);
      })

  pub service-Destroys :
      (w : World Agent) (x : Ptr)
      → IsHandle (w.services.at x).handle
      → Destroys World.services Service.owner_node Service.handle
          (destroy_service library config)
          SameServices
          x
          w
          (destroy_service library config handle x w)
  unfolding destroy_service delete_service ask_destroy
  service-Destroys w x i =
      let freed =
        fini-Freed service_handle Service.owner_node (λ a. refl) x w.services w.services refl i in
      rw (refused-IsHandle handle (w.services.at x).handle accepted i) (record {
        answer = done_answer _;
        memory = freed.memory;
        others = freed.others;
        owners = freed.fields;
        nodes = refl;
        rest = (refl, refl, refl);
      })

  pub client-Destroys :
      (w : World Agent) (x : Ptr)
      → IsHandle (w.clients.at x).handle
      → Destroys World.clients Client.owner_node Client.handle
          (destroy_client library config)
          SameClients
          x
          w
          (destroy_client library config handle x w)
  unfolding destroy_client delete_client ask_destroy
  client-Destroys w x i =
      let freed =
        fini-Freed client_handle Client.owner_node (λ a. refl) x w.clients w.clients refl i in
      rw (refused-IsHandle handle (w.clients.at x).handle accepted i) (record {
        answer = done_answer _;
        memory = freed.memory;
        others = freed.others;
        owners = freed.fields;
        nodes = refl;
        rest = (refl, refl, refl);
      })
