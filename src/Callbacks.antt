-- ===== src/Callbacks.antt =====
-- The callbacks of rmw_microxrcedds_c/src/callbacks.c, by which the XRCE client hands over the
-- samples that it received. A loop over `allocateditems` acts on the first entity that fits.
-- `on_status` ignores its arguments and has no model. Traces of errors are not modelled.
pub mod Receive
pub mod Quotas
mod Tests
use rmw_microxrcedds.Prelude.{
  ℕ, Bool, true, false, ◌&&◌, Option, none, some, List, [], ◌∷◌, ◌==◌, if◌then◌else◌,
}
use rmw_microxrcedds.Prelude.Int.{ℤ, pos}
use rmw_microxrcedds.Types.{
  Ptr, ObjectId, QosProfile, SampleIdentity, EntityType, Related, StaticInputBuffer, Buffers,
  Entities, Subscription, Service, Client, Owners, GraphInfo,
}
use rmw_microxrcedds.StaticBuffer.{get_static_input_buffer_for_entity, put_buffer}

-- `ucdr_deserialize_array_uint8_t(ub, buffer, length)` on the sample at hand: whether it succeeds,
-- and what it leaves in the buffer.
abbrev pub Reader : Type 0
Reader = ℕ → Bool × List ℕ

abbrev pub update : (Ptr → StaticInputBuffer) → Ptr → StaticInputBuffer → Ptr → StaticInputBuffer
update slot x d y = if x == y then d else slot y

-- `while (item != NULL) { if (fits) { ... return; } item = item->next; }`
unfoldable pub first_fit : (Ptr → Bool) → List Ptr → Option Ptr
first_fit fits [] = none
first_fit fits (x ∷ xs) = if fits x then some x else first_fit fits xs

-- What a callback writes into the buffer that it got: the fields, the union by `relate`.
unfoldable pub fill :
    Ptr → EntityType → (Related → Related) → ℕ → List ℕ → ℤ → StaticInputBuffer → StaticInputBuffer
fill entity entity_type relate length bytes now_ns d = record {
  buffer = bytes;
  length = length;
  owner = entity;
  timestamp = now_ns;
  entity_type = entity_type;
  related = relate d.related;
}

-- What a callback does with the buffer: the bytes of the sample into it, or, if they cannot be
-- read, the buffer back into the pool.
unfoldable pub store :
    Ptr → EntityType → (Related → Related) → Reader → ℕ → ℤ → Ptr → Buffers → Buffers
unfolding fill
store entity entity_type relate read length now_ns x b =
    let (done, bytes) = read length in
    if done
    then record b {
      slot = update b.slot x (fill entity entity_type relate length bytes now_ns (b.slot x));
    }
    else put_buffer x (record b { slot = update b.slot x (record (b.slot x) { buffer = bytes }) })

-- `if (!memory_node) { return; }`: without a buffer the sample is lost.
unfoldable pub store_in :
    Ptr → EntityType → (Related → Related) → Reader → ℕ → ℤ → Option Ptr × Buffers → Buffers
store_in entity entity_type relate read length now_ns (none, b) = b
store_in entity entity_type relate read length now_ns (some x, b) =
    store entity entity_type relate read length now_ns x b

-- The part that the three callbacks share: a buffer for the entity, and the sample into it.
unfoldable pub receive :
    Ptr → QosProfile → EntityType → (Related → Related) → Reader → ℕ → ℤ → Buffers → Buffers
unfolding store_in
receive entity qos entity_type relate read length now_ns b =
    store_in entity entity_type relate read length now_ns
      (get_static_input_buffer_for_entity b entity qos)

abbrev pub same_id : ObjectId → ObjectId → Bool
same_id a b = (a.id == b.id) && (a.type == b.type)

-- The state that `on_topic` changes. `graph_info` is there only with RMW_UXRCE_GRAPH.
pub record Inbox : Type 0 where
  pub graph_info : Option GraphInfo
  pub buffers : Buffers

subscription_of : Owners → ObjectId → Option Ptr
unfolding first_fit
subscription_of o object_id =
    first_fit (λ x. same_id (o.subscriptions.at x).datareader_id object_id)
      o.subscriptions.memory.allocated

on_subscription_topic : Owners → ObjectId → Reader → ℕ → ℤ → Buffers → Buffers
unfolding subscription_of receive
on_subscription_topic o object_id read length now_ns b = elim (subscription_of o object_id) [
  | none ↦ b
  | some s ↦
      receive s (o.subscriptions.at s).qos EntityType.subscription (λ r. r) read length now_ns b
]

-- The reader of the graph does not check whether the bytes could be read.
on_graph_topic : GraphInfo → Reader → ℕ → GraphInfo
on_graph_topic g read length = record g {
  micro_buffer_length = length;
  micro_buffer = (read length).1;
  initialized = true;
  has_changed = true;
}

-- `on_topic`
pub on_topic : Owners → ObjectId → Reader → ℕ → ℤ → Inbox → Inbox
unfolding on_subscription_topic on_graph_topic
on_topic o object_id read length now_ns i =
    let topic = record i {
      buffers = on_subscription_topic o object_id read length now_ns i.buffers;
    } in
    elim i.graph_info [
      | none ↦ topic
      | some g ↦
          if same_id object_id g.datareader_id
          then record i { graph_info = some (on_graph_topic g read length) }
          else topic
    ]

service_of : Owners → ℕ → Option Ptr
unfolding first_fit
service_of o request_id =
    first_fit (λ x. (o.services.at x).service_data_resquest == request_id)
      o.services.memory.allocated

-- `on_request`
pub on_request : Owners → ℕ → SampleIdentity → Reader → ℕ → ℤ → Buffers → Buffers
unfolding service_of receive
on_request o request_id sample_id read length now_ns b = elim (service_of o request_id) [
  | none ↦ b
  | some s ↦
      receive s (o.services.at s).qos EntityType.service (λ _. Related.sample_id sample_id) read
        length now_ns b
]

client_of : Owners → ℕ → Option Ptr
unfolding first_fit
client_of o request_id =
    first_fit (λ x. (o.clients.at x).client_data_request == request_id) o.clients.memory.allocated

-- `on_reply`: the `uint16_t` reply id becomes an `int64_t`.
pub on_reply : Owners → ℕ → ℕ → Reader → ℕ → ℤ → Buffers → Buffers
unfolding client_of receive
on_reply o request_id reply_id read length now_ns b = elim (client_of o request_id) [
  | none ↦ b
  | some c ↦
      receive c (o.clients.at c).qos EntityType.client (λ _. Related.reply_id (pos reply_id)) read
        length now_ns b
]
