-- ===== src/Lib.antt =====
-- rmw_microxrcedds: the ROS 2 middleware interface over Micro XRCE-DDS, in C. Paths below are under
-- rmw_microxrcedds_c/src/ of the repository.
--
-- The program keeps every entity (sessions, nodes, topics, publishers, subscriptions, services,
-- clients, guard conditions, and the input buffers of received samples) in a memory pool over a
-- static array. The XRCE client library calls back when a sample, a request or a reply arrives. The
-- callback looks for the entity that it is for, gets an input buffer within the entity's quota, and
-- stores the bytes. The take functions clean the expired buffers, look for the oldest buffer of
-- their entity, deserialize it and put it back. `rmw_wait` runs the sessions and then tells which
-- entities have a buffer that waits.
--
-- Parts and files:
--   memory.c, rmw_microros_internal/memory.h, RMW_INIT_MEMORY of types.c: Mempool.antt. Items are
--     records in a memory of addresses, with `prev` and `next`; each function is a sequence of
--     writes, as in the source. Pool.antt is the abstract pool of two lists. It is what
--     the linked lists are as long as a client puts back only what it holds; after another call of
--     put_memory it tells which call was made.
--   types.c (input buffers), rmw_microros_internal/types.h: StaticBuffer.antt, Types.antt. Here the
--     pools are the two lists that Mempool.antt refines; entities stand at addresses.
--   callbacks.c: Callbacks.antt.
--   rmw_take.c, and the take functions of rmw_request.c and rmw_response.c: Take.antt and
--     Take/Sequence.antt.
--   The header conversions of rmw_request.c and rmw_response.c: SampleId.antt.
--   rmw_wait.c: Wait.antt.
--   The names that utils.c generates: Names.antt. Its XML texts and names of profiles:
--     Names/Xml.antt. Its `run_xrce_session` and `convert_qos_profile`,
--     and what the entities ask of the client library: Xrce.antt.
--   rmw_microxrcedds_topic.c: Topic.antt. rmw_publisher.c: Publisher.antt. rmw_subscription.c:
--     Subscription.antt. rmw_service.c: Service.antt. rmw_client.c: Client.antt. rmw_node.c:
--     Node.antt. All in the build without RMW_UXRCE_USE_REFS. What they share is in Entity.antt
--     (the entity at an address, its handle, and the functions rmw_uxrce_fini_*_memory of types.c)
--     and Endpoint.antt (the failure path of an entity with a topic, the checks of handles).
--   rmw_init.c without its functions on init options: Session.antt, in the build without
--     RMW_UXRCE_GRAPH. Those functions: Options.antt, and rmw_microros/init_options.c:
--     Options/Setters.antt, in the build with RMW_UXRCE_TRANSPORT_UDP.
--   rmw_microros/ping.c, rmw_microros/time_sync.c: Session/Ping.antt. rmw_wait_set.c:
--     Wait/Sets.antt.
--   rmw_publish.c, the sending functions of rmw_request.c and rmw_response.c,
--     rmw_microros/continous_serialization.c: Send.antt.
--   rmw_graph.c: Graph.antt, and rmw_graph_init in Graph/Init.antt. The queries on the graph:
--     rmw_count.c in Graph/Count.antt, rmw_get_topic_endpoint_info.c in Graph/EndpointInfo.antt, the counts of
--     matched entities of rmw_publisher.c and rmw_subscription.c in Graph/Matched.antt,
--     rmw_node_names.c in Graph/NodeNames.antt, rmw_topic_names_and_types.c,
--     rmw_service_names_and_types.c and rmw_node_info_and_types.c in Graph/NamesAndTypes.antt. They
--     are there in the build with RMW_UXRCE_GRAPH.
--   rmw_guard_condition.c, rmw_trigger_guard_condition.c: Guard.antt.
--   rmw_microros/timing.c: Timing.antt.
--   identifiers.c, rmw_get_implementation_identifier.c, the check of utils.c and of
--     rmw_c_macros.h: Identifiers.antt.
-- Files named Tests, and Samples.antt, hold concrete states and runs.
--
-- Numbers are natural numbers, signed ones the integers of Prelude/Int.antt. An `int64_t` sum wraps
-- round as two's complement (`add64`), a `uint8_t` count is taken modulo 2 ^ 8. Bit patterns of 32
-- and 64 bits are naturals below 2 ^ 32 and 2 ^ 64. The functions on fuel are `get_memory`, which
-- calls itself once: depth 2 is enough, since the second call finds the item that the first added;
-- the draws of the client's key in Options.antt, for which one more than the number of zeros that
-- are drawn first is enough; and the walk through linked items of Mempool/Walk.antt, for which the
-- number of allocated items is enough. All other loops over `allocateditems` are recursion on the
-- list, as no loop changes what is ahead of it.
--
-- Parameters, since their code is not in the repository: the rmw time functions, the serializers
-- and deserializers of the type supports, the CDR library, the arrays of the rmw and rcutils
-- libraries and their allocator, the reading of a sample's bytes, the XRCE sessions and
-- their streams, `rmw_allocate`; and the opening of a transport, which only calls the platform. The
-- mutexes are in the model of memory.c as a depth; elsewhere a function runs alone.
--
-- Not modelled: transports, traces of errors, functions that answer RMW_RET_UNSUPPORTED, the call
-- of rmw_graph_init by rmw_init, gids and the setter of the error handler, and in the entities the
-- build with RMW_UXRCE_USE_REFS, whose texts are modelled but not their use.
pub mod Prelude
pub mod Pool
pub mod Mempool
pub mod Types
pub mod Samples
pub mod StaticBuffer
pub mod Callbacks
pub mod Identifiers
pub mod SampleId
pub mod Take
pub mod Wait
pub mod Names
pub mod Entity
pub mod Endpoint
pub mod Xrce
pub mod Topic
pub mod Publisher
pub mod Subscription
pub mod Service
pub mod Client
pub mod Node
pub mod Session
pub mod Send
pub mod Options
pub mod Guard
pub mod Graph
pub mod Timing
