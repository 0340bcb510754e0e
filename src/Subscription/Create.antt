-- ===== src/Subscription/Create.antt =====
-- `rmw_create_subscription` of rmw_microxrcedds_c/src/rmw_subscription.c as a whole.
use rmw_microxrcedds.Prelude.{
  ℕ, ◌≡◌, ◌≢◌, refl, sym, ◌∙◌, ◌⊎◌, inl, inr, false, not, ◌||◌, Option, none, List, [], ◌∷◌, arith,
  Bool-cases, ◌==◌, has, length,
}
use rmw_microxrcedds.Pool
use rmw_microxrcedds.Types.{Ptr, QosProfile, Members, Handle, Subscription}
use rmw_microxrcedds.Identifiers.{is_uxrce_rmw_identifier_valid}
use rmw_microxrcedds.Xrce.{XrceLibrary, Config, World}
use rmw_microxrcedds.Endpoint.Pools.{Made}
use rmw_microxrcedds.Subscription.{subscription_slot, subscription_in, create_subscription}
use rmw_microxrcedds.Subscription.Failure.{build_subscription-cases}

module _ {Agent : Type 0} (library : XrceLibrary Agent) (config : Config) where
  -- Nothing was created, and the pools are as they were.
  abbrev pub NotSubscribed : World Agent → Option Ptr × World Agent → Type 0
  NotSubscribed w r =
      (r.0 ≡ none)
      × (r.1.subscriptions.memory ≡ w.subscriptions.memory)
      × (r.1.topics.memory ≡ w.topics.memory)

  -- The first free subscription was created, with the first free topic.
  abbrev pub Subscribed : World Agent → Option Ptr × World Agent → Type 0
  Subscribed w r =
      (s : Ptr) × (rest : List Ptr) × (w.subscriptions.memory.free ≡ s ∷ rest)
      × (ne : s ≢ 0) × Made subscription_slot Subscription.topic w s rest ne r

  subscription_in-cases :
      (node : Ptr) (topic_name : List ℕ) (support : Option (Option Members)) (qos : QosProfile)
      (w : World Agent) (free : List Ptr)
      → w.subscriptions.memory.free ≡ free
      → has 0 free ≡ false
      → has 0 w.topics.memory.free ≡ false
      → ((s : Ptr) (rest : List Ptr)
          → w.subscriptions.memory.free ≡ s ∷ rest
          → (w.subscriptions.at s).topic ≡ 0)
      → let r =
          subscription_in library config node topic_name support qos
            (Pool.take w.subscriptions.memory.allocated free)
            w in
        NotSubscribed w r ⊎ Subscribed w r
  unfolding subscription_in Pool.take
  subscription_in-cases node topic_name support qos w [] e nz nt reset = inl (refl, refl, refl)
  subscription_in-cases node topic_name support qos w (s ∷ rest) e nz nt reset =
      let ne : s ≢ 0 = ground (arith, nz) in
      elim (build_subscription-cases library config node qos w s rest ne topic_name support
        (reset s rest e) nt) [
          | inl r ↦ inl (
            r.returns,
            r.entities
                ∙ (λ i. record { allocated = w.subscriptions.memory.allocated; free = sym e i }),
            r.topics,
          )
          | inr m ↦ inr (s, rest, e, ne, m)
        ]

  -- With no NULL among the free items, and no topic noted in the first free subscription,
  -- `rmw_create_subscription` either creates that subscription with the first free topic, or
  -- returns NULL with the pools of subscriptions and of topics as they were, whatever step failed.
  pub create_subscription-cases :
      (node : Handle) (topic_name : List ℕ) (support : Option (Option Members)) (qos : QosProfile)
      (w : World Agent)
      → has 0 w.subscriptions.memory.free ≡ false
      → has 0 w.topics.memory.free ≡ false
      → ((s : Ptr) (rest : List Ptr)
          → w.subscriptions.memory.free ≡ s ∷ rest
          → (w.subscriptions.at s).topic ≡ 0)
      → let r = create_subscription library config node topic_name support qos w in
        NotSubscribed w r ⊎ Subscribed w r
  unfolding create_subscription Pool.get
  create_subscription-cases node topic_name support qos w nz nt reset =
      elim (Bool-cases (
        not (is_uxrce_rmw_identifier_valid node.implementation_identifier)
        || (length topic_name == 0))) [
          | inl e ↦ rw e (inl (refl, refl, refl))
          | inr e ↦ rw e (
              subscription_in-cases node.contents topic_name support qos w
                w.subscriptions.memory.free refl nz nt reset)
        ]
