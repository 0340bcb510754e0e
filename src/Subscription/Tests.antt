-- ===== src/Subscription/Tests.antt =====
-- The theorems on subscriptions at one node.
use rmw_microxrcedds.Prelude.{◌⊎◌, refl, some, [], ◌∷◌}
use rmw_microxrcedds.Samples.{qos_of, ten_seconds}
use rmw_microxrcedds.Samples.Network.{library, config, members, node, idle}
use rmw_microxrcedds.Subscription.{create_subscription}
use rmw_microxrcedds.Subscription.Create.{NotSubscribed, Subscribed, create_subscription-cases}

create_subscription-cases_example :
    let r =
      create_subscription library config node
        (97 ∷ [])
        (some (some members))
        (qos_of ten_seconds)
        (idle 0) in
    NotSubscribed library config (idle 0) r ⊎ Subscribed library config (idle 0) r
create_subscription-cases_example =
    create_subscription-cases library config node (97 ∷ []) (some (some members))
      (qos_of ten_seconds) (idle 0) refl refl (λ s rest e. refl)
