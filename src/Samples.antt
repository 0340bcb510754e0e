-- ===== src/Samples.antt =====
-- A small state that the tests share: three entities, and two samples that wait.
pub mod Network
use rmw_microxrcedds.Prelude.{none, ℕ, ◌+◌, ◌*◌, false, ◌&&◌, [], ◌∷◌, ◌==◌, if◌then◌else◌}
use rmw_microxrcedds.Prelude.Int.{ℤ, pos, int64_max}
use rmw_microxrcedds.Types.{
  RmwTime, QosProfile, HistoryPolicy, ReliabilityPolicy, DurabilityPolicy, EntityType, Related,
  StaticInputBuffer, Buffers, Owners, RmwTimeLibrary, ObjectId, StreamId, StreamType,
}

-- Durations in seconds and nanoseconds; the total stops at the largest `int64_t`.
abbrev pub time : RmwTimeLibrary
time = record {
  rmw_time_equal = λ a b. a.sec == b.sec && a.nsec == b.nsec;
  rmw_time_total_nsec =
      λ a. if a.sec == 9223372036 then int64_max else pos (a.sec * 1000000000 + a.nsec);
  duration_unspecified = record { sec = 0; nsec = 0 };
  duration_infinite = record { sec = 9223372036; nsec = 854775807 };
}

abbrev pub qos_of : RmwTime → QosProfile
qos_of lifespan = record {
  history = HistoryPolicy.keep_last;
  depth = 2;
  reliability = ReliabilityPolicy.reliable;
  durability = DurabilityPolicy.volatile;
  lifespan = lifespan;
  avoid_ros_namespace_conventions = false;
}

abbrev pub no_id : ObjectId
no_id = record { id = 0; type = 0 }

abbrev pub no_stream : StreamId
no_stream = record { index = 0; type = StreamType.reliable_stream }

-- One subscription, at address 40, one service, at 50, and one client, at 60, whose messages live
-- as long as `lifespan`.
abbrev pub owners : RmwTime → Owners
owners lifespan = record {
  subscriptions = record {
    memory = record { allocated = 40 ∷ []; free = [] };
    at = λ x. record {
      subscriber_id = no_id;
      datareader_id = record { id = 7; type = 6 };
      owner_node = 20;
      members = none;
      topic = 0;
      qos = qos_of lifespan;
      handle = record { implementation_identifier = none; contents = 0 };
      topic_name = [];
    };
  };
  services = record {
    memory = record { allocated = 50 ∷ []; free = [] };
    at = λ x. record {
      service_id = no_id;
      service_data_resquest = 3;
      owner_node = 20;
      qos = qos_of lifespan;
      stream_id = no_stream;
      members = none;
      session_timeout = pos 0;
      handle = record { implementation_identifier = none; contents = 0 };
      service_name = [];
    };
  };
  clients = record {
    memory = record { allocated = 60 ∷ []; free = [] };
    at = λ x. record {
      client_id = no_id;
      client_data_request = 4;
      owner_node = 20;
      qos = qos_of lifespan;
      stream_id = no_stream;
      members = none;
      session_timeout = pos 0;
      handle = record { implementation_identifier = none; contents = 0 };
      service_name = [];
    };
  };
}

abbrev pub sample : ℕ → StaticInputBuffer
sample n = record {
  buffer = n ∷ [];
  length = 1;
  owner = 40;
  timestamp = pos (n * 1000000000);
  entity_type = EntityType.subscription;
  related = Related.reply_id (pos 0);
}

-- Buffers 2 and 1 hold samples of the subscription, of 2 and 1 seconds; 3 and 4 are free.
abbrev pub two_samples : Buffers
two_samples = record {
  memory = record { allocated = 2 ∷ 1 ∷ []; free = 3 ∷ 4 ∷ [] };
  slot = sample;
}

abbrev pub ten_seconds : RmwTime
ten_seconds = record { sec = 10; nsec = 0 }

-- The time at which the first sample has expired and the second has not.
abbrev pub later : ℤ
later = pos 11500000000
