-- ===== src/Callbacks/Tests.antt =====
-- The theorems on the callbacks: a sample, a request and a reply arrive.
use rmw_microxrcedds.Prelude.{refl, true, false, none, List, [], ◌∷◌, arith}
use rmw_microxrcedds.Types.{EntityType, SampleIdentity}
use rmw_microxrcedds.Samples.{qos_of, owners, two_samples, ten_seconds, later}
use rmw_microxrcedds.Callbacks.{Reader, Inbox, receive}
use rmw_microxrcedds.Callbacks.Receive.{IsSound, Received, receive-Received}
use rmw_microxrcedds.Callbacks.Quotas.{
  IsApart, Quotas, Event, topic, request, reply, handle_all, handle_all-Quotas,
}

abbrev reads : Reader
reads length = (true, 5 ∷ [])

abbrev fails : Reader
fails length = (false, [])

two_samples-IsSound : IsSound two_samples.memory
two_samples-IsSound = record {
  allocated_once = (refl, (refl, tt));
  free_once = (refl, (refl, tt));
  apart = λ a i. ground arith;
}

-- The subscription has two samples already, and so the older one is written over.
receive-Received_example :
    Received 40
      (qos_of ten_seconds)
      two_samples
      (receive 40 (qos_of ten_seconds) EntityType.subscription (λ r. r) reads 1 later two_samples)
receive-Received_example =
    receive-Received 40 (qos_of ten_seconds) EntityType.subscription (λ r. r) reads 1 later
      two_samples two_samples-IsSound

abbrev identity : SampleIdentity
identity = record {
  high = 0;
  low = 9;
  entity_kind = 4;
  entity_key = 1 ∷ 2 ∷ 3 ∷ [];
  guid_prefix = 1 ∷ 2 ∷ 3 ∷ 4 ∷ 5 ∷ 6 ∷ 7 ∷ 8 ∷ 9 ∷ 10 ∷ 11 ∷ 12 ∷ [];
}

abbrev events : List Event
events =
    topic (record { id = 7; type = 6 }) reads 1 later
    ∷ request 3 identity reads 1 later
    ∷ reply 4 2 fails 1 later
    ∷ reply 4 3 reads 1 later
    ∷ []

abbrev inbox : Inbox
inbox = record { graph_info = none; buffers = two_samples }

owners-IsApart : IsApart (owners ten_seconds)
owners-IsApart = record {
  subscription_service = λ a i. ground arith;
  subscription_client = λ a i. ground arith;
  service_client = λ a i. ground arith;
}

inbox-Quotas : Quotas (owners ten_seconds) two_samples
inbox-Quotas = record {
  sound = two_samples-IsSound;
  subscriptions = λ x i d. ground arith;
  services = λ x i d. ground arith;
  clients = λ x i d. ground arith;
}

handle_all-Quotas_example :
    Quotas (owners ten_seconds) (handle_all (owners ten_seconds) events inbox).buffers
handle_all-Quotas_example =
    handle_all-Quotas (owners ten_seconds) owners-IsApart events inbox inbox-Quotas
