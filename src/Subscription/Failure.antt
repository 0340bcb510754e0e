-- ===== src/Subscription/Failure.antt =====
-- The pools of subscriptions and of topics across the steps of `rmw_create_subscription`
-- (rmw_microxrcedds_c/src/rmw_subscription.c).
use rmw_microxrcedds.Prelude.{
  ℕ, ◌+◌, ◌≡◌, ◌≢◌, refl, ◌⊎◌, inl, inr, Bool, true, false, Option, none, some, List, ◌∷◌,
  Bool-cases, ==_self, has, length, ltb,
}
use rmw_microxrcedds.Types.{Ptr, QosProfile, Members, Subscription}
use rmw_microxrcedds.Entity.{with_memory, claim}
use rmw_microxrcedds.Entity.Claim.{claim-Claimed, set-Claimed}
use rmw_microxrcedds.Xrce.{XrceLibrary, Config, World, buffer_creation}
use rmw_microxrcedds.Topic.{create_topic}
use rmw_microxrcedds.Topic.Memory.{HasTopic, create_topic-cases}
use rmw_microxrcedds.Endpoint.Pools.{
  Held, Without, With, Restored, Made, fail-Without, fail-With, with-Created,
}
use rmw_microxrcedds.Subscription.{
  subscription_slot, subscription_handle, set_subscription, claim_subscription,
  describe_subscription, ask_subscriber, ask_datareader, with_topic, with_support,
  build_subscription, finish_subscription, request_samples,
}

module _ {Agent : Type 0} (library : XrceLibrary Agent) (config : Config) (node : Ptr)
    (qos : QosProfile) (w : World Agent) (s : Ptr) (rest : List Ptr) (ne : s ≢ 0) where
  abbrev Back : Option Ptr × World Agent → Type 0
  Back = Restored subscription_slot Subscription.topic w s rest ne

  abbrev Here : Option Ptr × World Agent → Type 0
  Here = Made subscription_slot Subscription.topic w s rest ne

  abbrev Own : World Agent → Type 0
  Own = Held subscription_slot Subscription.topic w s rest ne

  -- A write to the subscription leaves its handle alone.
  set-Own :
      (v : World Agent) (d : Subscription)
      → Own v
      → d.handle ≡ (v.subscriptions.at s).handle
      → Own (set_subscription s d v)
  set-Own v d c e = set-Claimed subscription_handle w.subscriptions s rest ne v.subscriptions d c e

  with_topic-none :
      (v : World Agent)
      → Own v
      → v.topics.memory ≡ w.topics.memory
      → Back (with_topic library config node qos s (none, v))
  unfolding with_topic
  with_topic-none v c e =
      fail-Without subscription_slot Subscription.topic w s rest ne
        (set_subscription s (record (v.subscriptions.at s) { topic = 0 }) v) (set-Own v _ c refl)
        (rw (==_self s) refl, e)

  finish-cases :
      (v : World Agent) (done : Bool)
      → Own v
      → With subscription_slot Subscription.topic w s rest ne v
      → Back (finish_subscription library config node qos s done v)
        ⊎ Here (finish_subscription library config node qos s done v)
  unfolding finish_subscription
  finish-cases v true c h =
      unfold request_samples buffer_creation in
      (inr (record { returns = refl; claimed = c; named = h }))
  finish-cases v false c h = inl (fail-With subscription_slot Subscription.topic w s rest ne v c h)

  with_topic-some :
      (v : World Agent) (t : Ptr)
      → Own v
      → HasTopic w t v
      → Back (with_topic library config node qos s (some t, v))
        ⊎ Here (with_topic library config node qos s (some t, v))
  unfolding with_topic
  with_topic-some v t c h =
      let w₁ = set_subscription s (record (v.subscriptions.at s) { topic = t }) v in
      let k₁ : Own w₁ = set-Own v (record (v.subscriptions.at s) { topic = t }) c refl in
      let (subscribed, w₂) = ask_subscriber library config node s w₁ in
      let k₂ : Own w₂ = unfold ask_subscriber in (set-Own w₁ _ k₁ refl) in
      let h₂ : (w₂.subscriptions.at s).topic ≡ t = unfold ask_subscriber in (rw (==_self s) refl) in
      let (read, w₃) = ask_datareader library config node qos s w₂ in
      let k₃ : Own w₃ = unfold ask_datareader in (set-Own w₂ _ k₂ refl) in
      let h₃ : (w₃.subscriptions.at s).topic ≡ t =
        unfold ask_datareader ask_subscriber in (rw (==_self s) refl) in
      elim (Bool-cases subscribed) [
        | inl e ↦ rw e (finish-cases w₃ read k₃ (rw h₃ (unfold ask_datareader ask_subscriber in h)))
        | inr e ↦ rw e (
            inl (
              fail-With subscription_slot Subscription.topic w s rest ne w₂ k₂
                (rw h₂ (unfold ask_subscriber in h))))
      ]

  with_support-cases :
      (topic_name : List ℕ) (support : Option (Option Members)) (v : World Agent)
      → Own v
      → Without subscription_slot Subscription.topic w s rest ne v
      → has 0 w.topics.memory.free ≡ false
      → Back (with_support library config node topic_name support qos s v)
        ⊎ Here (with_support library config node topic_name support qos s v)
  unfolding with_support
  with_support-cases topic_name none v c n nz =
      inl (fail-Without subscription_slot Subscription.topic w s rest ne v c n)
  with_support-cases topic_name (some none) v c n nz = inl (
      fail-Without subscription_slot Subscription.topic w s rest ne
        (set_subscription s (record (v.subscriptions.at s) { members = none }) v)
        (set-Own v _ c refl) (rw (==_self s) n.0, n.1))
  with_support-cases topic_name (some (some members)) v c n nz =
      let u = set_subscription s (record (v.subscriptions.at s) { members = some members }) v in
      with-Created subscription_slot Subscription.topic w s rest ne library config node
        (with_topic library config node qos s) with_topic-none with_topic-some u
        (set-Own v _ c refl) n.1 nz (create_topic library config node topic_name members u)
        (create_topic-cases library config node topic_name members u)

  pub build_subscription-cases :
      (topic_name : List ℕ) (support : Option (Option Members))
      → (w.subscriptions.at s).topic ≡ 0
      → has 0 w.topics.memory.free ≡ false
      → let v : World Agent = record w {
        subscriptions =
            with_memory
              (record { allocated = s ∷ w.subscriptions.memory.allocated; free = rest })
              w.subscriptions;
      } in
        Back (build_subscription library config node topic_name support qos s v)
        ⊎ Here (build_subscription library config node topic_name support qos s v)
  unfolding build_subscription
  build_subscription-cases topic_name support reset nz =
      let v : World Agent = record w {
        subscriptions =
            with_memory (record { allocated = s ∷ w.subscriptions.memory.allocated; free = rest })
              w.subscriptions;
      } in
      let w₁ = claim_subscription s v in
      let c₁ : Own w₁ =
        unfold claim_subscription in
        (claim-Claimed subscription_handle w.subscriptions s rest ne) in
      let n₁ : Without subscription_slot Subscription.topic w s rest ne w₁ =
        unfold claim_subscription claim in (rw (==_self s) reset, refl) in
      elim (Bool-cases (ltb config.topic_name_max_length (length topic_name + 1))) [
        | inl e ↦
            rw e (inl (fail-Without subscription_slot Subscription.topic w s rest ne w₁ c₁ n₁))
        | inr e ↦ rw e (
            with_support-cases topic_name support
              (describe_subscription library config node topic_name qos s w₁)
              (unfold describe_subscription in (set-Own w₁ _ c₁ refl))
              (unfold describe_subscription in (rw (==_self s) n₁.0, n₁.1)) nz)
      ]
