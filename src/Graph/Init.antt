-- ===== src/Graph/Init.antt =====
-- `rmw_graph_init` of rmw_graph.c (rmw_microxrcedds_c/src): the entities through which the graph
-- arrives.
use rmw_microxrcedds.Prelude.{
  ℕ, ◌≤◌, ◌≡◌, ◌↔◌, refl, ap, leb, ◌&&◌, Bool-cases, inl, inr, Bool, true, false, List, [], ◌∷◌,
  length, arith, ◌==◌, if◌then◌else◌,
}
use rmw_microxrcedds.Prelude.Int.{ℤ, pos}
use rmw_microxrcedds.Types.{
  Ptr, ObjectId, QosProfile, HistoryPolicy, ReliabilityPolicy, DurabilityPolicy, Members, GraphInfo,
  RmwRet, ret_ok, ret_error,
}
use rmw_microxrcedds.Prelude.Words.{increment16}
use rmw_microxrcedds.Names.{generate_type_name}
use rmw_microxrcedds.Names.Xml.{
  codes, build_subscriber_xml, build_topic_xml, build_datareader_xml, generate_name,
}
use rmw_microxrcedds.Names.Whole.{build_xml-Written}
use rmw_microxrcedds.Xrce.{
  participant_kind, topic_kind, subscriber_kind, datareader_kind, XrceLibrary, Config, Context,
  World, set_context,
}

-- The requests of this function, each with its id and that of its parent.
pub data GraphRequest : Type 0 where
  participant_bin : ObjectId → ℕ → List ℕ → GraphRequest
  subscriber_xml topic_xml datareader_xml : ObjectId → ObjectId → List ℕ → GraphRequest

-- What it asks of the client library, on the creation stream of a context: a request into the
-- stream, the session until all requests have their status, and the samples of a data reader.
pub record GraphInitLibrary (Agent : Type 0) : Type 0 where
  pub buffer_create : Ptr → GraphRequest → Agent → ℕ × Agent
  pub run_until_all_status : Ptr → ℤ → List ℕ → Agent → Bool × Agent
  pub request_data : Ptr → ObjectId → Agent → Agent

-- The ids in `rmw_graph_info_t`.
pub record GraphIds : Type 0 where
  pub participant_id : ObjectId
  pub subscriber_id : ObjectId
  pub topic_id : ObjectId
  pub datareader_id : ObjectId

-- `graph_subscription_qos_policies`; the fields for deadline, lifespan and liveliness are not used.
abbrev pub graph_qos : QosProfile
graph_qos = record {
  history = HistoryPolicy.keep_last;
  depth = 1;
  reliability = ReliabilityPolicy.reliable;
  durability = DurabilityPolicy.transient_local;
  lifespan = record { sec = 0; nsec = 0 };
  avoid_ros_namespace_conventions = true;
}

abbrev pub graph_topic_name : List ℕ
graph_topic_name = codes "ros_to_microros_graph"

module _ {Agent : Type 0} (library : XrceLibrary Agent) (init : GraphInitLibrary Agent)
    (config : Config) where
  -- The ids, from the counters of a context.
  abbrev pub graph_ids : Context → GraphIds
  graph_ids context = record {
    participant_id = library.object_id context.id_participant participant_kind;
    subscriber_id = library.object_id context.id_subscriber subscriber_kind;
    topic_id = library.object_id context.id_topic topic_kind;
    datareader_id = library.object_id context.id_datareader datareader_kind;
  }

  -- The counters after the ids were taken.
  abbrev pub count_ids : Context → Context
  count_ids context = record context {
    id_participant = increment16 context.id_participant;
    id_subscriber = increment16 context.id_subscriber;
    id_topic = increment16 context.id_topic;
    id_datareader = increment16 context.id_datareader;
  }

  -- After the requests: the session, and the request for samples.
  unfoldable pub run_graph : Ptr → GraphIds → List ℕ → Agent → RmwRet × Agent
  run_graph c ids requests agent =
      let (done, agent') = init.run_until_all_status c (pos 1000) requests agent in
      (
        if done then ret_ok else ret_error,
        if done then init.request_data c ids.datareader_id agent' else agent',
      )

  -- From the topic on, with the requests before it.
  unfoldable pub ask_graph_topic : Ptr → Members → ℕ → GraphIds → ℕ → ℕ → Agent → RmwRet × Agent
  unfolding run_graph
  ask_graph_topic c members size ids participant_req subscriber_req agent =
      let (topic_ret, topic) = build_topic_xml config graph_topic_name members graph_qos [] size in
      let (topic_req, a₁) =
        init.buffer_create c (topic_xml ids.topic_id ids.participant_id topic) agent in
      let (reader_ret, reader) =
        build_datareader_xml config graph_topic_name members graph_qos topic size in
      let (datareader_req, a₂) =
        init.buffer_create c (datareader_xml ids.datareader_id ids.subscriber_id reader) a₁ in
      if topic_ret == 0
      then (ret_error, agent)
      else if reader_ret == 0
      then (ret_error, a₁)
      else run_graph c ids (participant_req ∷ subscriber_req ∷ topic_req ∷ datareader_req ∷ []) a₂

  -- The requests for the participant and the subscriber, then the others.
  unfoldable pub ask_graph : Ptr → Members → ℕ → GraphIds → Agent → RmwRet × Agent
  unfolding ask_graph_topic
  ask_graph c members size ids agent =
      let (participant_req, a₁) =
        init.buffer_create c (participant_bin ids.participant_id 0 (codes "microros_graph"))
          agent in
      let name = (generate_name ids.subscriber_id 20).1 in
      let (ret, xml) = build_subscriber_xml name size in
      let (subscriber_req, a₂) =
        init.buffer_create c (subscriber_xml ids.subscriber_id ids.participant_id xml) a₁ in
      if ret == 0
      then (ret_error, a₁)
      else ask_graph_topic c members size ids participant_req subscriber_req a₂

  -- `rmw_graph_init`: the context, the type support of the graph and the size of
  -- `rmw_uxrce_entity_naming_buffer`; the answer, the ids, what it stores in the graph, and the
  -- state. The counters of the topic and of the data reader count before the first text can fail.
  unfoldable pub rmw_graph_init :
      Ptr → Members → ℕ → GraphInfo → World Agent → RmwRet × GraphIds × GraphInfo × World Agent
  unfolding ask_graph
  rmw_graph_init c members size g w =
      let context = w.contexts.at c in
      let ids = graph_ids context in
      let (ret, agent) = ask_graph c members size ids w.agent in
      (
        ret,
        ids,
        record g { initialized = false; has_changed = false; datareader_id = ids.datareader_id },
        record (set_context c (count_ids context) w) { agent = agent },
      )

  -- The names fit: that of the topic and that of its type.
  abbrev pub fits_graph : Members → Bool
  fits_graph members =
      leb (length graph_topic_name) config.topic_name_max_length
      && (generate_type_name members config.type_name_max_length).0

  topic_set :
      (members : Members) (xml : List ℕ) (size : ℕ)
      → fits_graph members ≡ true
      → ((build_topic_xml config graph_topic_name members graph_qos xml size).0 == 0) ≡ false
        × ((build_datareader_xml config graph_topic_name members graph_qos xml size).0 == 0) ≡ false
  topic_set members xml size h =
      let within : length graph_topic_name ≤ config.topic_name_max_length = ground (arith, h) in
      let done : (generate_type_name members config.type_name_max_length).0 ≡ true =
        ground (arith, h) in
      let (topic, writer, reader) =
        build_xml-Written config graph_topic_name members graph_qos xml size within done in
      (ground (arith, topic.0), ground (arith, reader.0))

  topic_unset :
      (members : Members) (xml : List ℕ) (size : ℕ)
      → fits_graph members ≡ false
      → (build_topic_xml config graph_topic_name members graph_qos xml size).0 ≡ 0
  unfolding build_topic_xml
  topic_unset members xml size h = rw h refl

  -- The session that confirms whatever it is asked.
  abbrev pub Confirms : Ptr → Type 0
  Confirms c =
      (requests : List ℕ) (agent : Agent)
      → (init.run_until_all_status c (pos 1000) requests agent).0 ≡ true

  run_graph_ok :
      (c : Ptr) (ids : GraphIds) (requests : List ℕ) (agent : Agent)
      → Confirms c
      → (run_graph c ids requests agent).0 ≡ ret_ok
  unfolding run_graph
  run_graph_ok c ids requests agent confirms =
      ap (λ (b : Bool). if b then ret_ok else ret_error) (confirms requests agent)

  topic_asked_iff :
      (c : Ptr) (members : Members) (size : ℕ) (ids : GraphIds) (p s : ℕ) (agent : Agent)
      → Confirms c
      → ((ask_graph_topic c members size ids p s agent).0 ≡ ret_ok) ↔ (fits_graph members ≡ true)
  unfolding ask_graph_topic
  topic_asked_iff c members size ids p s agent confirms =
      let topic = build_topic_xml config graph_topic_name members graph_qos [] size in
      elim (Bool-cases (fits_graph members)) [
        | inl e ↦
            let first = (topic_set members [] size e).0 in
            let second = (topic_set members topic.1 size e).1 in
            (λ h. e, λ h. rw (first, second) (run_graph_ok c ids _ _ confirms))
        | inr e ↦ (
          λ h.
              let unset = topic_unset members [] size e in
              let failed : (ask_graph_topic c members size ids p s agent).0 ≡ ret_error =
                rw unset refl in
              absurd (ground (arith, failed, h)),
          λ h. absurd (ground (arith, e, h)),
        )
      ]

  -- If the session confirms whatever it is asked, `rmw_graph_init` answers RMW_RET_OK exactly when
  -- the name of its topic, of 21 bytes, is within RMW_UXRCE_TOPIC_NAME_MAX_LENGTH and the name of
  -- its type fits its buffer, whatever the size of the buffer for the texts is. In any case the
  -- graph is then not initialized, and waits for the samples of a data reader whose id is made of
  -- the context's counter.
  pub rmw_graph_init_iff :
      (c : Ptr) (members : Members) (size : ℕ) (g : GraphInfo) (w : World Agent)
      → Confirms c
      → let (ret, ids, g', w') = rmw_graph_init c members size g w in
        ((ret ≡ ret_ok) ↔ (fits_graph members ≡ true))
        × (g'.initialized ≡ false)
        × (g'.datareader_id ≡ library.object_id (w.contexts.at c).id_datareader datareader_kind)
  unfolding rmw_graph_init ask_graph build_subscriber_xml
  rmw_graph_init_iff c members size g w confirms =
      (topic_asked_iff c members size (graph_ids (w.contexts.at c)) _ _ _ confirms, refl, refl)
