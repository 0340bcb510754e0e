-- ===== src/Samples/Network.antt =====
-- A small network that the tests of the entities share: one node at address 20 in a context at
-- address 10, free items, and a library whose requests all succeed.
use rmw_microxrcedds.Prelude.{ℕ, ◌+◌, true, none, some, List, [], ◌∷◌, if◌then◌else◌, ◌==◌}
use rmw_microxrcedds.Prelude.Int.{pos}
use rmw_microxrcedds.Pool.{Pool}
use rmw_microxrcedds.Types.{Ptr, best_effort_stream, Members, ServiceMembers, Handle}
use rmw_microxrcedds.Samples.{qos_of, ten_seconds, no_id, no_stream}
use rmw_microxrcedds.Identifiers.{eprosima_microxrcedds_identifier}
use rmw_microxrcedds.Entity.{no_handle}
use rmw_microxrcedds.Xrce.{XrceLibrary, Config, World}

-- A library in which every request succeeds; its state counts the requests.
abbrev pub library : XrceLibrary ℕ
library = record {
  object_id = λ id kind. record { id = id; type = 0 };
  buffer_request = λ context stream request agent. (agent, agent + 1);
  flash_output_streams = λ context agent. agent;
  run_until_all_status = λ context timeout request agent. (true, agent);
}

abbrev pub config : Config
config = record {
  topic_name_max_length = 4;
  type_name_max_length = 60;
  node_name_max_length = 8;
  publish_reliable_timeout = pos 1;
}

abbrev pub members : Members
members = record { message_namespace = none; message_name = 65 ∷ [] }

abbrev pub service_members : ServiceMembers
service_members = record { request_members = members; response_members = members }

abbrev pub pool : List Ptr → List Ptr → Pool
pool allocated free = record { allocated = allocated; free = free }

-- The handle of the entity at an address, or of none where the address is not that of the entity
-- that is in use.
abbrev pub handle_at : Ptr → Ptr → Handle
handle_at used x =
    if x == used
    then record { implementation_identifier = some eprosima_microxrcedds_identifier; contents = x }
    else no_handle

abbrev pub node : Handle
node = handle_at 20 20

-- One topic, 32, one publisher, 42, one subscription, 52, one service, 62, and one client, 72, are
-- free, and the items of the lists are allocated. Publishers and subscriptions note the topic
-- `old`.
abbrev pub network : List Ptr → List Ptr → List Ptr → List Ptr → List Ptr → Ptr → World ℕ
network topics publishers subscriptions services clients old = record {
  nodes = record {
    memory = pool (20 ∷ []) (21 ∷ []);
    at = λ n. record {
      context = 10;
      participant_id = no_id;
      handle = handle_at 20 n;
      node_name = [];
      node_namespace = [];
    };
  };
  contexts = record {
    memory = pool (10 ∷ []) [];
    at = λ c. record {
      reliable_input = no_stream;
      reliable_output = no_stream;
      best_effort_output = record { index = 0; type = best_effort_stream };
      best_effort_input = no_stream;
      creation_stream = no_stream;
      destroy_stream = no_stream;
      creation_timeout = pos 1;
      destroy_timeout = pos 1;
      id_participant = 0;
      id_topic = 0;
      id_publisher = 0;
      id_datawriter = 0;
      id_subscriber = 0;
      id_datareader = 0;
      id_requester = 0;
      id_replier = 0;
    };
  };
  topics = record {
    memory = pool topics (32 ∷ []);
    at = λ t. record { topic_id = no_id; members = members; owner_node = 20 };
  };
  publishers = record {
    memory = pool publishers (42 ∷ []);
    at = λ p. record {
      publisher_id = no_id;
      datawriter_id = no_id;
      members = none;
      cs_cb_size = 0;
      cs_cb_serialization = 0;
      topic = old;
      qos = qos_of ten_seconds;
      stream_id = no_stream;
      session_timeout = pos 0;
      owner_node = 20;
      handle = handle_at 41 p;
      topic_name = [];
    };
  };
  subscriptions = record {
    memory = pool subscriptions (52 ∷ []);
    at = λ s. record {
      subscriber_id = no_id;
      datareader_id = no_id;
      owner_node = 20;
      members = none;
      topic = old;
      qos = qos_of ten_seconds;
      handle = handle_at 51 s;
      topic_name = [];
    };
  };
  services = record {
    memory = pool services (62 ∷ []);
    at = λ s. record {
      service_id = no_id;
      service_data_resquest = 0;
      owner_node = 20;
      qos = qos_of ten_seconds;
      members = none;
      stream_id = no_stream;
      session_timeout = pos 0;
      handle = handle_at 61 s;
      service_name = [];
    };
  };
  clients = record {
    memory = pool clients (72 ∷ []);
    at = λ c. record {
      client_id = no_id;
      client_data_request = 0;
      owner_node = 20;
      qos = qos_of ten_seconds;
      members = none;
      stream_id = no_stream;
      session_timeout = pos 0;
      handle = handle_at 71 c;
      service_name = [];
    };
  };
  agent = 0;
}

-- A node with one entity of each kind.
abbrev pub busy : World ℕ
busy = network (31 ∷ []) (41 ∷ []) (51 ∷ []) (61 ∷ []) (71 ∷ []) 31

-- A node without entities, whose free publishers and subscriptions note the topic `old`.
abbrev pub idle : Ptr → World ℕ
idle = network [] [] [] [] []
