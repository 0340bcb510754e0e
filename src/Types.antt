-- ===== src/Types.antt =====
-- The data of rmw_microxrcedds_c/src/rmw_microros_internal/types.h, and the types of the rmw and
-- XRCE client libraries that it uses, with the fields that this code reads or writes.
use rmw_microxrcedds.Prelude.{ℕ, Bool, Option, List}
use Prim.Native.String.{String}
use rmw_microxrcedds.Prelude.Int.{ℤ}
use rmw_microxrcedds.Pool.{Pool}

-- Addresses of entities. 0 is NULL.
abbrev pub Ptr : Type 0
Ptr = ℕ

-- `uxrObjectId`
pub record ObjectId : Type 0 where
  pub id : ℕ
  pub type : ℕ

-- The `type` of a `uxrStreamId`
pub data StreamType : Type 0 where
  best_effort_stream reliable_stream : StreamType

-- `uxrStreamId`
pub record StreamId : Type 0 where
  pub index : ℕ
  pub type : StreamType

-- `rmw_time_t`
pub record RmwTime : Type 0 where
  pub sec : ℕ
  pub nsec : ℕ

pub data HistoryPolicy : Type 0 where
  system_default keep_last keep_all unknown : HistoryPolicy
  other : ℕ → HistoryPolicy

pub data ReliabilityPolicy : Type 0 where
  system_default reliable best_effort unknown : ReliabilityPolicy
  other : ℕ → ReliabilityPolicy

pub data DurabilityPolicy : Type 0 where
  system_default transient_local volatile unknown : DurabilityPolicy
  other : ℕ → DurabilityPolicy

-- `rmw_qos_profile_t`
pub record QosProfile : Type 0 where
  pub history : HistoryPolicy
  pub depth : ℕ
  pub reliability : ReliabilityPolicy
  pub durability : DurabilityPolicy
  pub lifespan : RmwTime
  pub avoid_ros_namespace_conventions : Bool

-- `SampleIdentity`: `high` is an `int32_t` as its bit pattern, `low` a `uint32_t`, the rest bytes.
pub record SampleIdentity : Type 0 where
  pub high : ℕ
  pub low : ℕ
  pub entity_kind : ℕ
  pub entity_key : List ℕ
  pub guid_prefix : List ℕ

-- `rmw_uxrce_entity_type_t`
pub data EntityType : Type 0 where
  unknown node topic service client subscription publisher : EntityType

-- The union `related`: the member that was written last.
pub data Related : Type 0 where
  reply_id : ℤ → Related
  sample_id : SampleIdentity → Related

-- `rmw_uxrce_static_input_buffer_t`
pub record StaticInputBuffer : Type 0 where
  pub buffer : List ℕ
  pub length : ℕ
  pub owner : Ptr
  pub timestamp : ℤ
  pub entity_type : EntityType
  pub related : Related

-- `static_buffer_memory` with its items' data.
pub record Buffers : Type 0 where
  pub memory : Pool
  pub slot : Ptr → StaticInputBuffer

-- A handle of the rmw layer: its `implementation_identifier`, if that is not NULL, and its `data`.
pub record Handle : Type 0 where
  pub implementation_identifier : Option String
  pub contents : Ptr

-- The fields of `message_type_support_callbacks_t` that the names are made of.
pub record Members : Type 0 where
  pub message_namespace : Option (List ℕ)
  pub message_name : List ℕ

-- `service_type_support_callbacks_t`: the callbacks of the request and of the response.
pub record ServiceMembers : Type 0 where
  pub request_members : Members
  pub response_members : Members

-- `rmw_uxrce_subscription_t`
pub record Subscription : Type 0 where
  pub subscriber_id : ObjectId
  pub datareader_id : ObjectId
  pub owner_node : Ptr
  pub members : Option Members
  pub topic : Ptr
  pub qos : QosProfile
  pub handle : Handle
  pub topic_name : List ℕ

-- `rmw_uxrce_service_t`
pub record Service : Type 0 where
  pub service_id : ObjectId
  pub service_data_resquest : ℕ
  pub owner_node : Ptr
  pub qos : QosProfile
  pub members : Option ServiceMembers
  pub stream_id : StreamId
  pub session_timeout : ℤ
  pub handle : Handle
  pub service_name : List ℕ

-- `rmw_uxrce_client_t`
pub record Client : Type 0 where
  pub client_id : ObjectId
  pub client_data_request : ℕ
  pub owner_node : Ptr
  pub qos : QosProfile
  pub members : Option ServiceMembers
  pub stream_id : StreamId
  pub session_timeout : ℤ
  pub handle : Handle
  pub service_name : List ℕ

-- `rmw_graph_info_t`
pub record GraphInfo : Type 0 where
  pub initialized : Bool
  pub has_changed : Bool
  pub datareader_id : ObjectId
  pub micro_buffer : List ℕ
  pub micro_buffer_length : ℕ

-- A pool of entities: the lists of its items, and the entity at each address.
pub record Entities (A : Type 0) : Type 0 where
  pub memory : Pool
  pub at : Ptr → A

-- The memory pools whose entities own input buffers.
pub record Owners : Type 0 where
  pub subscriptions : Entities Subscription
  pub services : Entities Service
  pub clients : Entities Client

-- What the rmw library declares on durations (rmw/time.h): a test of equality, the nanoseconds as
-- an `int64_t`, and two constants.
pub record RmwTimeLibrary : Type 0 where
  pub rmw_time_equal : RmwTime → RmwTime → Bool
  pub rmw_time_total_nsec : RmwTime → ℤ
  pub duration_unspecified : RmwTime
  pub duration_infinite : RmwTime

-- `rmw_ret_t`, with the values that this code returns.
pub data RmwRet : Type 0 where
  ret_ok ret_error ret_timeout ret_unsupported ret_invalid_argument : RmwRet
  ret_incorrect_rmw_implementation : RmwRet

-- `rmw_request_id_t`: an `int64_t` as its bit pattern, and 16 bytes.
pub record RequestId : Type 0 where
  pub sequence_number : ℕ
  pub writer_guid : List ℕ
