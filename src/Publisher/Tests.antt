-- ===== src/Publisher/Tests.antt =====
-- The theorems on topics, publishers and the timeouts of sessions at one node.
use rmw_microxrcedds.Prelude.{◌⊎◌, refl, false, some, [], ◌∷◌}
use rmw_microxrcedds.Pool
use rmw_microxrcedds.Mempool.{Mempool, init_memory}
use rmw_microxrcedds.Samples.{qos_of, ten_seconds}
use rmw_microxrcedds.Samples.Network.{library, config, members, node, idle}
use rmw_microxrcedds.Topic.{create_topic}
use rmw_microxrcedds.Topic.Memory.{Failed, Created, create_topic-cases}
use rmw_microxrcedds.Publisher.{create_publisher}
use rmw_microxrcedds.Publisher.Create.{Unchanged, Published, create_publisher-cases}

create_topic-cases_example :
    Failed library config (idle 0) (create_topic library config 20 (97 ∷ []) members (idle 0))
    ⊎ Created library config 20 (idle 0) (create_topic library config 20 (97 ∷ []) members (idle 0))
create_topic-cases_example = create_topic-cases library config 20 (97 ∷ []) members (idle 0)

create_publisher-cases_example :
    let r =
      create_publisher library config node
        (97 ∷ [])
        (some (some members))
        (qos_of ten_seconds)
        (idle 0) in
    Unchanged library config (idle 0) r ⊎ Published library config (idle 0) r
create_publisher-cases_example =
    create_publisher-cases library config node (97 ∷ []) (some (some members)) (qos_of ten_seconds)
      (idle 0) refl refl (λ p ps e. refl)

-- A linked list of the one topic, which is free.
abbrev blank : Mempool
blank = record {
  items = λ p. record { prev = 0; next = 0; contents = 0; is_dynamic_memory = false };
  allocateditems = 0;
  freeitems = 0;
  element_size = 0;
  is_initialized = false;
  is_dynamic_allowed = false;
  mutex = 0;
  released = [];
}

abbrev free_topic : Mempool
free_topic = init_memory false 8 (32 ∷ []) blank
