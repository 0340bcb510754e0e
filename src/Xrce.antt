-- ===== src/Xrce.antt =====
-- What the entities ask of the XRCE client library, and their common state: `run_xrce_session` and
-- `convert_qos_profile` of utils.c, `rmw_context_impl_s`, `rmw_uxrce_node_t`, `rmw_uxrce_topic_t`
-- and `rmw_uxrce_publisher_t` of rmw_microros_internal/types.h (rmw_microxrcedds_c/src). The build
-- is the one without RMW_UXRCE_USE_REFS.
use rmw_microxrcedds.Prelude.{ℕ, ◌≡◌, ◌&&◌, Bool, true, Option, List}
use rmw_microxrcedds.Prelude.Int.{ℤ}
use rmw_microxrcedds.Types.{
  Ptr, ObjectId, StreamId, StreamType, best_effort_stream, reliable_stream, QosProfile,
  HistoryPolicy, ReliabilityPolicy, DurabilityPolicy, Entities, Subscription, Service, Client,
  Members, Handle,
}
use rmw_microxrcedds.Entity.{set_entity}

-- The second argument of `uxr_object_id`.
pub data IdKind : Type 0 where
  participant_kind topic_kind publisher_kind datawriter_kind subscriber_kind datareader_kind :
      IdKind
  replier_kind requester_kind : IdKind

pub data UxrDurability : Type 0 where
  uxr_volatile uxr_transient_local : UxrDurability

pub data UxrReliability : Type 0 where
  uxr_best_effort uxr_reliable : UxrReliability

pub data UxrHistory : Type 0 where
  uxr_keep_last uxr_keep_all : UxrHistory

-- `uxrQoS_t`
pub record UxrQos : Type 0 where
  pub durability : UxrDurability
  pub reliability : UxrReliability
  pub history : UxrHistory
  pub depth : ℕ

convert_durability : DurabilityPolicy → UxrDurability
convert_durability DurabilityPolicy.volatile = uxr_volatile
convert_durability DurabilityPolicy.unknown = uxr_transient_local
convert_durability DurabilityPolicy.system_default = uxr_transient_local
convert_durability DurabilityPolicy.transient_local = uxr_transient_local
convert_durability (DurabilityPolicy.other n) = uxr_transient_local

convert_reliability : ReliabilityPolicy → UxrReliability
convert_reliability ReliabilityPolicy.best_effort = uxr_best_effort
convert_reliability ReliabilityPolicy.reliable = uxr_reliable
convert_reliability ReliabilityPolicy.system_default = uxr_reliable
convert_reliability ReliabilityPolicy.unknown = uxr_reliable
convert_reliability (ReliabilityPolicy.other n) = uxr_reliable

convert_history : HistoryPolicy → UxrHistory
convert_history HistoryPolicy.keep_all = uxr_keep_all
convert_history HistoryPolicy.keep_last = uxr_keep_last
convert_history HistoryPolicy.system_default = uxr_keep_last
convert_history HistoryPolicy.unknown = uxr_keep_last
convert_history (HistoryPolicy.other n) = uxr_keep_last

-- `convert_qos_profile`
unfoldable pub convert_qos_profile : QosProfile → UxrQos
unfolding convert_durability convert_reliability convert_history
convert_qos_profile qos = record {
  durability = convert_durability qos.durability;
  reliability = convert_reliability qos.reliability;
  history = convert_history qos.history;
  depth = qos.depth;
}

-- The requests that `uxr_buffer_*` puts into a stream, with the ids and texts that they carry.
pub data XrceRequest : Type 0 where
  create_participant_bin : ObjectId → ℕ → List ℕ → XrceRequest
  create_topic_bin : ObjectId → ObjectId → List ℕ → List ℕ → XrceRequest
  create_publisher_bin : ObjectId → ObjectId → XrceRequest
  create_datawriter_bin : ObjectId → ObjectId → ObjectId → UxrQos → XrceRequest
  create_subscriber_bin : ObjectId → ObjectId → XrceRequest
  create_datareader_bin : ObjectId → ObjectId → ObjectId → UxrQos → XrceRequest
  create_replier_bin :
      ObjectId → ObjectId → List ℕ → List ℕ → List ℕ → List ℕ → List ℕ → UxrQos → XrceRequest
  create_requester_bin :
      ObjectId → ObjectId → List ℕ → List ℕ → List ℕ → List ℕ → List ℕ → UxrQos → XrceRequest
  request_data : ObjectId → StreamId → XrceRequest
  cancel_data : ObjectId → XrceRequest
  delete_entity : ObjectId → XrceRequest

-- The client library, on the state `Agent` of its sessions: the request's id, sending without
-- waiting, and running a session for some time until a request has its status.
pub record XrceLibrary (Agent : Type 0) : Type 0 where
  pub object_id : ℕ → IdKind → ObjectId
  pub buffer_request : Ptr → StreamId → XrceRequest → Agent → ℕ × Agent
  pub flash_output_streams : Ptr → Agent → Agent
  pub run_until_all_status : Ptr → ℤ → ℕ → Agent → Bool × Agent

-- RMW_UXRCE_TOPIC_NAME_MAX_LENGTH, RMW_UXRCE_TYPE_NAME_MAX_LENGTH,
-- RMW_UXRCE_NODE_NAME_MAX_LENGTH and RMW_UXRCE_PUBLISH_RELIABLE_TIMEOUT
pub record Config : Type 0 where
  pub topic_name_max_length : ℕ
  pub type_name_max_length : ℕ
  pub node_name_max_length : ℕ
  pub publish_reliable_timeout : ℤ

-- `rmw_context_impl_s`, the fields that creation and destruction of entities use.
pub record Context : Type 0 where
  pub reliable_input : StreamId
  pub reliable_output : StreamId
  pub best_effort_output : StreamId
  pub best_effort_input : StreamId
  pub creation_stream : StreamId
  pub destroy_stream : StreamId
  pub creation_timeout : ℤ
  pub destroy_timeout : ℤ
  pub id_participant : ℕ
  pub id_topic : ℕ
  pub id_publisher : ℕ
  pub id_datawriter : ℕ
  pub id_subscriber : ℕ
  pub id_datareader : ℕ
  pub id_requester : ℕ
  pub id_replier : ℕ

-- `rmw_uxrce_node_t`
pub record Node : Type 0 where
  pub context : Ptr
  pub participant_id : ObjectId
  pub handle : Handle
  pub node_name : List ℕ
  pub node_namespace : List ℕ

-- `rmw_uxrce_topic_t`
pub record Topic : Type 0 where
  pub topic_id : ObjectId
  pub members : Members
  pub owner_node : Ptr

-- `rmw_uxrce_publisher_t`. The callbacks for continuous serialization are addresses, 0 for NULL.
pub record Publisher : Type 0 where
  pub publisher_id : ObjectId
  pub datawriter_id : ObjectId
  pub members : Option Members
  pub cs_cb_size : Ptr
  pub cs_cb_serialization : Ptr
  pub topic : Ptr
  pub qos : QosProfile
  pub stream_id : StreamId
  pub session_timeout : ℤ
  pub owner_node : Ptr
  pub handle : Handle
  pub topic_name : List ℕ

-- The memory pools of the entities, and the state of the client library.
pub record World (Agent : Type 0) : Type 0 where
  pub nodes : Entities Node
  pub contexts : Entities Context
  pub topics : Entities Topic
  pub publishers : Entities Publisher
  pub subscriptions : Entities Subscription
  pub services : Entities Service
  pub clients : Entities Client
  pub agent : Agent

abbrev pub context_of : {Agent : Type 0} → World Agent → Ptr → Context
context_of w node = w.contexts.at (w.nodes.at node).context

-- The entities other than topics, and the nodes, are the same.
abbrev pub SameEntities : {Agent : Type 0} → World Agent → World Agent → Type 0
SameEntities w v =
    (v.nodes ≡ w.nodes)
    × (v.publishers ≡ w.publishers)
    × (v.subscriptions ≡ w.subscriptions)
    × (v.services ≡ w.services)
    × (v.clients ≡ w.clients)

-- A context changes.
abbrev pub set_context : {Agent : Type 0} → Ptr → Context → World Agent → World Agent
set_context c context w = record w { contexts = set_entity c context w.contexts }

module _ {Agent : Type 0} (library : XrceLibrary Agent) where
  -- `run_xrce_session`
  unfoldable pub run_xrce_session : Ptr → StreamType → ℤ → ℕ → Agent → Bool × Agent
  run_xrce_session context best_effort_stream timeout request agent =
      (true, library.flash_output_streams context agent)
  run_xrce_session context reliable_stream timeout request agent =
      library.run_until_all_status context timeout request agent

  -- A request into a stream of a context, and `run_xrce_session` for it.
  unfoldable pub ask : Ptr → StreamId → ℤ → XrceRequest → Agent → Bool × Agent
  unfolding run_xrce_session
  ask context stream timeout request agent =
      let (id, agent') = library.buffer_request context stream request agent in
      run_xrce_session context stream.type timeout id agent'

  -- A request into the context's stream for creations, and `run_xrce_session` for it.
  unfoldable pub ask_creation : Ptr → XrceRequest → World Agent → Bool × World Agent
  unfolding ask
  ask_creation node request w =
      let context = context_of w node in
      let (done, agent) =
        ask (w.nodes.at node).context context.creation_stream context.creation_timeout request
          w.agent in
      (done, record w { agent = agent })

  -- A request into that stream to which no answer is awaited, and the request's id.
  unfoldable pub buffer_creation : Ptr → XrceRequest → World Agent → ℕ × World Agent
  buffer_creation node request w =
      let context = context_of w node in
      let (id, agent) =
        library.buffer_request (w.nodes.at node).context context.creation_stream request w.agent in
      (id, record w { agent = agent })

  -- A request into the stream for destructions, and a session for it.
  unfoldable pub ask_destroy : Ptr → XrceRequest → World Agent → Bool × World Agent
  unfolding ask
  ask_destroy node request w =
      let context = context_of w node in
      let (done, agent) =
        ask (w.nodes.at node).context context.destroy_stream context.destroy_timeout request
          w.agent in
      (done, record w { agent = agent })

  -- The end of `rmw_destroy_publisher` and of `rmw_destroy_subscription`: both requests to delete
  -- are buffered, and then there is a session for each.
  unfoldable pub ask_delete_both : Ptr → ObjectId → ObjectId → World Agent → Bool × World Agent
  unfolding run_xrce_session
  ask_delete_both node first second w =
      let context = context_of w node in
      let session = (w.nodes.at node).context in
      let (one, a₁) =
        library.buffer_request session context.destroy_stream (delete_entity first) w.agent in
      let (two, a₂) =
        library.buffer_request session context.destroy_stream (delete_entity second) a₁ in
      let (done, a₃) =
        run_xrce_session session context.destroy_stream.type context.destroy_timeout one a₂ in
      let (done', a₄) =
        run_xrce_session session context.destroy_stream.type context.destroy_timeout two a₃ in
      (done && done', record w { agent = a₄ })
