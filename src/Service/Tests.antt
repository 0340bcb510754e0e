-- ===== src/Service/Tests.antt =====
-- The theorems on services at one node.
use rmw_microxrcedds.Prelude.{◌⊎◌, refl, some, [], ◌∷◌}
use rmw_microxrcedds.Samples.{qos_of, ten_seconds}
use rmw_microxrcedds.Samples.Network.{library, config, service_members, node, idle}
use rmw_microxrcedds.Service.{create_service}
use rmw_microxrcedds.Service.Life.{NotServed, Served, create_service-cases}

create_service-cases_example :
    let r =
      create_service library config node
        (97 ∷ [])
        (some (some service_members))
        (qos_of ten_seconds)
        (idle 0) in
    NotServed (idle 0) r ⊎ Served node.contents (qos_of ten_seconds) (idle 0) r
create_service-cases_example =
    create_service-cases library config node (97 ∷ []) (some (some service_members))
      (qos_of ten_seconds) (idle 0) refl
