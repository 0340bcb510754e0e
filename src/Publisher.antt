-- ===== src/Publisher.antt =====
-- Publishers: `rmw_create_publisher` of rmw_publisher.c, and
-- `rmw_uxrce_fini_publisher_memory` of types.c (rmw_microxrcedds_c/src), in the build without
-- RMW_UXRCE_USE_REFS. A publisher's `rmw_publisher` has the address of the publisher.
pub mod Failure
pub mod Create
pub mod Destroy
mod Tests
use rmw_microxrcedds.Prelude.{
  ℕ, ◌+◌, refl, Bool, true, false, ◌&&◌, ◌||◌, not, Option, none, some, List, length, ltb, ◌==◌,
  if◌then◌else◌,
}
use rmw_microxrcedds.Prelude.Words.{increment16}
use rmw_microxrcedds.Pool
use rmw_microxrcedds.Types.{
  Ptr, RmwRet, ret_ok, ret_error, ret_timeout, QosProfile, Members, Handle,
}
use rmw_microxrcedds.Identifiers.{is_uxrce_rmw_identifier_valid}
use rmw_microxrcedds.Entity.{Handled, set_entity, with_memory, claim, fini_memory}
use rmw_microxrcedds.Xrce.{
  publisher_kind, datawriter_kind, create_publisher_bin, create_datawriter_bin, XrceLibrary, Config,
  Context, Topic, Publisher, World, convert_qos_profile, context_of, set_context, ask_creation,
}
use rmw_microxrcedds.Topic.{create_topic}
use rmw_microxrcedds.Endpoint.{Slot, fail_with_topic, finish_with_topic, output_stream}

abbrev pub publisher_handle : Handled Publisher
publisher_handle = record {
  get = Publisher.handle;
  put = λ h d. record d { handle = h };
  get-put = λ h d. refl;
}

abbrev pub publisher_slot : {Agent : Type 0} → Slot Agent Publisher
publisher_slot = record {
  entities = World.publishers;
  write = λ e w. record w { publishers = e };
  handled = publisher_handle;
  entities-write = λ e w. refl;
  write-topics = λ e w. refl;
  same = λ u v e. e.1;
}

module _ {Agent : Type 0} where
  abbrev pub set_publisher : Ptr → Publisher → World Agent → World Agent
  set_publisher p d w = record w { publishers = set_entity p d w.publishers }

  -- `rmw_uxrce_fini_publisher_memory`
  abbrev pub fini_publisher_memory : Ptr → World Agent → World Agent
  fini_publisher_memory p w = record w { publishers = fini_memory publisher_handle p w.publishers }

  -- The label `fail` of `rmw_create_publisher`.
  abbrev pub fail_publisher : Ptr → World Agent → Option Ptr × World Agent
  fail_publisher = fail_with_topic publisher_slot Publisher.topic

  abbrev pub finish_publisher : Ptr → Bool → World Agent → Option Ptr × World Agent
  finish_publisher = finish_with_topic publisher_slot Publisher.topic

  -- The handle of the new publisher, before the length of the name is looked at.
  unfoldable pub claim_publisher : Ptr → World Agent → World Agent
  claim_publisher p w = record w { publishers = claim publisher_handle p w.publishers }

module _ {Agent : Type 0} (library : XrceLibrary Agent) (config : Config) where
  -- The fields of the new publisher, up to the type support.
  unfoldable pub describe_publisher : Ptr → List ℕ → QosProfile → Ptr → World Agent → World Agent
  describe_publisher node topic_name qos p w =
      set_publisher p
        (record (w.publishers.at p) {
          topic_name = topic_name;
          owner_node = node;
          session_timeout = config.publish_reliable_timeout;
          qos = qos;
          stream_id = output_stream qos.reliability (context_of w node);
          cs_cb_size = 0;
          cs_cb_serialization = 0;
        })
        w

  -- `// Create publisher`: the id, its counter, and the session.
  unfoldable pub ask_publisher : Ptr → Ptr → World Agent → Bool × World Agent
  unfolding ask_creation
  ask_publisher node p w =
      let context = context_of w node in
      let id = library.object_id context.id_publisher publisher_kind in
      ask_creation library node (create_publisher_bin id (w.nodes.at node).participant_id) (
        set_publisher p (record (w.publishers.at p) { publisher_id = id })
          (set_context (w.nodes.at node).context
            (record context { id_publisher = increment16 context.id_publisher }) w))

  -- `// Create datawriter`
  unfoldable pub ask_datawriter : Ptr → QosProfile → Ptr → World Agent → Bool × World Agent
  unfolding ask_creation
  ask_datawriter node qos p w =
      let context = context_of w node in
      let d = w.publishers.at p in
      let id = library.object_id context.id_datawriter datawriter_kind in
      ask_creation library node
        (create_datawriter_bin id d.publisher_id (w.topics.at d.topic).topic_id
          (convert_qos_profile qos))
        (set_publisher p (record d { datawriter_id = id })
          (set_context (w.nodes.at node).context
            (record context { id_datawriter = increment16 context.id_datawriter }) w))

  -- The part of `rmw_create_publisher` that has a topic, or NULL, from `create_topic`.
  unfoldable pub with_topic :
      Ptr → QosProfile → Ptr → Option Ptr × World Agent → Option Ptr × World Agent
  with_topic node qos p (none, w) =
      fail_publisher p (set_publisher p (record (w.publishers.at p) { topic = 0 }) w)
  with_topic node qos p (some t, w) =
      let w₁ = set_publisher p (record (w.publishers.at p) { topic = t }) w in
      let (published, w₂) = ask_publisher node p w₁ in
      let (written, w₃) = ask_datawriter node qos p w₂ in
      if published then finish_publisher p written w₃ else fail_publisher p w₂

  -- The type support may have no handle of this middleware (`none`), or one whose data is NULL.
  unfoldable pub with_support :
      Ptr
      → List ℕ
      → Option (Option Members)
      → QosProfile
      → Ptr
      → World Agent
      → Option Ptr × World Agent
  with_support node topic_name none qos p w = fail_publisher p w
  with_support node topic_name (some none) qos p w =
      fail_publisher p (set_publisher p (record (w.publishers.at p) { members = none }) w)
  with_support node topic_name (some (some members)) qos p w = with_topic node qos p (
      create_topic library config node topic_name members
        (set_publisher p (record (w.publishers.at p) { members = some members }) w))

  -- `rmw_create_publisher` with an item from the pool.
  unfoldable pub build_publisher :
      Ptr
      → List ℕ
      → Option (Option Members)
      → QosProfile
      → Ptr
      → World Agent
      → Option Ptr × World Agent
  build_publisher node topic_name support qos p w =
      let w₁ = claim_publisher p w in
      if ltb config.topic_name_max_length (length topic_name + 1)
      then fail_publisher p w₁
      else with_support node topic_name support qos p (describe_publisher node topic_name qos p w₁)

  unfoldable pub publisher_in :
      Ptr
      → List ℕ
      → Option (Option Members)
      → QosProfile
      → Option Ptr × Pool.Pool
      → World Agent
      → Option Ptr × World Agent
  publisher_in node topic_name support qos (none, memory) w = (none, w)
  publisher_in node topic_name support qos (some p, memory) w =
      build_publisher node topic_name support qos p
        (record w { publishers = with_memory memory w.publishers })

  -- `rmw_create_publisher` behind its checks of arguments for NULL.
  unfoldable pub create_publisher :
      Handle
      → List ℕ
      → Option (Option Members)
      → QosProfile
      → World Agent
      → Option Ptr × World Agent
  create_publisher node topic_name support qos w =
      if not (is_uxrce_rmw_identifier_valid node.implementation_identifier)
        || (length topic_name == 0)
      then (none, w)
      else publisher_in node.contents topic_name support qos (Pool.get w.publishers.memory) w
