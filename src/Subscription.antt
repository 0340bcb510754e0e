-- ===== src/Subscription.antt =====
-- Subscriptions: `rmw_create_subscription` and `rmw_destroy_subscription` of rmw_subscription.c,
-- and `rmw_uxrce_fini_subscription_memory` of types.c (rmw_microxrcedds_c/src), in the build
-- without RMW_UXRCE_USE_REFS. A subscription's `rmw_subscription` has the address of the
-- subscription.
pub mod Failure
pub mod Create
pub mod Destroy
mod Tests
use rmw_microxrcedds.Prelude.{
  ℕ, ◌+◌, refl, Bool, true, false, ◌&&◌, ◌||◌, not, Option, none, some, List, length, ltb, ◌==◌,
  if◌then◌else◌,
}
use rmw_microxrcedds.Prelude.Words.{increment16}
use rmw_microxrcedds.Pool
use rmw_microxrcedds.Types.{
  Ptr, RmwRet, ret_ok, ret_error, ret_timeout, QosProfile, Members, Handle, Subscription,
}
use rmw_microxrcedds.Identifiers.{is_uxrce_rmw_identifier_valid}
use rmw_microxrcedds.Entity.{Handled, set_entity, with_memory, claim, fini_memory}
use rmw_microxrcedds.Xrce.{
  subscriber_kind, datareader_kind, create_subscriber_bin, create_datareader_bin, request_data,
  cancel_data, XrceLibrary, Config, Context, Topic, World, convert_qos_profile, context_of,
  set_context, ask_creation, buffer_creation, ask_destroy, ask_delete_both,
}
use rmw_microxrcedds.Topic.{create_topic, destroy_topic}
use rmw_microxrcedds.Endpoint.{Slot, fail_with_topic, input_stream, refused}

abbrev pub subscription_handle : Handled Subscription
subscription_handle = record {
  get = Subscription.handle;
  put = λ h d. record d { handle = h };
  get-put = λ h d. refl;
}

abbrev pub subscription_slot : {Agent : Type 0} → Slot Agent Subscription
subscription_slot = record {
  entities = World.subscriptions;
  write = λ e w. record w { subscriptions = e };
  handled = subscription_handle;
  entities-write = λ e w. refl;
  write-topics = λ e w. refl;
  same = λ u v e. e.2;
}

module _ {Agent : Type 0} where
  abbrev pub set_subscription : Ptr → Subscription → World Agent → World Agent
  set_subscription s d w = record w { subscriptions = set_entity s d w.subscriptions }

  -- `rmw_uxrce_fini_subscription_memory`
  abbrev pub fini_subscription_memory : Ptr → World Agent → World Agent
  fini_subscription_memory s w = record w {
    subscriptions = fini_memory subscription_handle s w.subscriptions;
  }

  -- The label `fail` of `rmw_create_subscription`.
  abbrev pub fail_subscription : Ptr → World Agent → Option Ptr × World Agent
  fail_subscription = fail_with_topic subscription_slot Subscription.topic

  -- The handle of the new subscription, before the length of the name is looked at.
  unfoldable pub claim_subscription : Ptr → World Agent → World Agent
  claim_subscription s w = record w { subscriptions = claim subscription_handle s w.subscriptions }

module _ {Agent : Type 0} (library : XrceLibrary Agent) (config : Config) where
  -- The fields of the new subscription, up to the type support.
  unfoldable pub describe_subscription : Ptr → List ℕ → QosProfile → Ptr → World Agent → World Agent
  describe_subscription node topic_name qos s w =
      set_subscription s
        (record (w.subscriptions.at s) { topic_name = topic_name; owner_node = node; qos = qos }) w

  -- `// Create subscriber`: the id, its counter, and the session.
  unfoldable pub ask_subscriber : Ptr → Ptr → World Agent → Bool × World Agent
  unfolding ask_creation
  ask_subscriber node s w =
      let context = context_of w node in
      let id = library.object_id context.id_subscriber subscriber_kind in
      ask_creation library node (create_subscriber_bin id (w.nodes.at node).participant_id) (
        set_subscription s (record (w.subscriptions.at s) { subscriber_id = id })
          (set_context (w.nodes.at node).context
            (record context { id_subscriber = increment16 context.id_subscriber }) w))

  -- `// Create datareader`
  unfoldable pub ask_datareader : Ptr → QosProfile → Ptr → World Agent → Bool × World Agent
  unfolding ask_creation
  ask_datareader node qos s w =
      let context = context_of w node in
      let d = w.subscriptions.at s in
      let id = library.object_id context.id_datareader datareader_kind in
      ask_creation library node
        (create_datareader_bin id d.subscriber_id (w.topics.at d.topic).topic_id
          (convert_qos_profile qos))
        (set_subscription s (record d { datareader_id = id })
          (set_context (w.nodes.at node).context
            (record context { id_datareader = increment16 context.id_datareader }) w))

  -- The request for data, to which no answer is awaited.
  unfoldable pub request_samples : Ptr → QosProfile → Ptr → World Agent → World Agent
  unfolding buffer_creation
  request_samples node qos s w =
      (buffer_creation library node
        (request_data (w.subscriptions.at s).datareader_id
          (input_stream qos.reliability (context_of w node)))
        w).1

  unfoldable pub finish_subscription :
      Ptr → QosProfile → Ptr → Bool → World Agent → Option Ptr × World Agent
  finish_subscription node qos s done w =
      if done then (some s, request_samples node qos s w) else fail_subscription s w

  -- The part of `rmw_create_subscription` that has a topic, or NULL, from `create_topic`.
  unfoldable pub with_topic :
      Ptr → QosProfile → Ptr → Option Ptr × World Agent → Option Ptr × World Agent
  with_topic node qos s (none, w) =
      fail_subscription s (set_subscription s (record (w.subscriptions.at s) { topic = 0 }) w)
  with_topic node qos s (some t, w) =
      let w₁ = set_subscription s (record (w.subscriptions.at s) { topic = t }) w in
      let (subscribed, w₂) = ask_subscriber node s w₁ in
      let (read, w₃) = ask_datareader node qos s w₂ in
      if subscribed then finish_subscription node qos s read w₃ else fail_subscription s w₂

  -- The type support may have no handle of this middleware (`none`), or one whose data is NULL.
  unfoldable pub with_support :
      Ptr
      → List ℕ
      → Option (Option Members)
      → QosProfile
      → Ptr
      → World Agent
      → Option Ptr × World Agent
  with_support node topic_name none qos s w = fail_subscription s w
  with_support node topic_name (some none) qos s w =
      fail_subscription s (set_subscription s (record (w.subscriptions.at s) { members = none }) w)
  with_support node topic_name (some (some members)) qos s w = with_topic node qos s (
      create_topic library config node topic_name members
        (set_subscription s (record (w.subscriptions.at s) { members = some members }) w))

  -- `rmw_create_subscription` with an item from the pool.
  unfoldable pub build_subscription :
      Ptr
      → List ℕ
      → Option (Option Members)
      → QosProfile
      → Ptr
      → World Agent
      → Option Ptr × World Agent
  build_subscription node topic_name support qos s w =
      let w₁ = claim_subscription s w in
      if ltb config.topic_name_max_length (length topic_name + 1)
      then fail_subscription s w₁
      else with_support node topic_name support qos s
          (describe_subscription node topic_name qos s w₁)

  unfoldable pub subscription_in :
      Ptr
      → List ℕ
      → Option (Option Members)
      → QosProfile
      → Option Ptr × Pool.Pool
      → World Agent
      → Option Ptr × World Agent
  subscription_in node topic_name support qos (none, memory) w = (none, w)
  subscription_in node topic_name support qos (some s, memory) w =
      build_subscription node topic_name support qos s
        (record w { subscriptions = with_memory memory w.subscriptions })

  -- `rmw_create_subscription` behind its checks of arguments for NULL.
  unfoldable pub create_subscription :
      Handle
      → List ℕ
      → Option (Option Members)
      → QosProfile
      → World Agent
      → Option Ptr × World Agent
  create_subscription node topic_name support qos w =
      if not (is_uxrce_rmw_identifier_valid node.implementation_identifier)
        || (length topic_name == 0)
      then (none, w)
      else subscription_in node.contents topic_name support qos (Pool.get w.subscriptions.memory) w
