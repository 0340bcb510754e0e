-- ===== src/Publisher/Failure.antt =====
-- The pools of publishers and of topics across the steps of `rmw_create_publisher`
-- (rmw_microxrcedds_c/src/rmw_publisher.c).
use rmw_microxrcedds.Prelude.{
  ℕ, ◌+◌, ◌≡◌, ◌≢◌, refl, ◌⊎◌, inl, inr, false, Option, none, some, List, ◌∷◌, Bool-cases, ==_self,
  has, length, ltb,
}
use rmw_microxrcedds.Types.{Ptr, QosProfile, Members}
use rmw_microxrcedds.Entity.{with_memory, claim}
use rmw_microxrcedds.Entity.Claim.{claim-Claimed, set-Claimed}
use rmw_microxrcedds.Xrce.{XrceLibrary, Config, Publisher, World}
use rmw_microxrcedds.Topic.{create_topic}
use rmw_microxrcedds.Topic.Memory.{HasTopic, create_topic-cases}
use rmw_microxrcedds.Endpoint.Pools.{
  Held, Without, Restored, Made, fail-Without, fail-With, finish-With, with-Created,
}
use rmw_microxrcedds.Publisher.{
  publisher_slot, publisher_handle, set_publisher, claim_publisher, describe_publisher,
  ask_publisher, ask_datawriter, with_topic, with_support, build_publisher,
}

module _ {Agent : Type 0} (library : XrceLibrary Agent) (config : Config) (node : Ptr)
    (qos : QosProfile) (w : World Agent) (p : Ptr) (ps : List Ptr) (ne : p ≢ 0) where
  abbrev Back : Option Ptr × World Agent → Type 0
  Back = Restored publisher_slot Publisher.topic w p ps ne

  abbrev Here : Option Ptr × World Agent → Type 0
  Here = Made publisher_slot Publisher.topic w p ps ne

  abbrev Own : World Agent → Type 0
  Own = Held publisher_slot Publisher.topic w p ps ne

  -- A write to the publisher leaves its handle alone.
  set-Own :
      (v : World Agent) (d : Publisher)
      → Own v
      → d.handle ≡ (v.publishers.at p).handle
      → Own (set_publisher p d v)
  set-Own v d c e = set-Claimed publisher_handle w.publishers p ps ne v.publishers d c e

  with_topic-none :
      (v : World Agent)
      → Own v
      → v.topics.memory ≡ w.topics.memory
      → Back (with_topic library config node qos p (none, v))
  unfolding with_topic
  with_topic-none v c e =
      fail-Without publisher_slot Publisher.topic w p ps ne
        (set_publisher p (record (v.publishers.at p) { topic = 0 }) v) (set-Own v _ c refl)
        (rw (==_self p) refl, e)

  with_topic-some :
      (v : World Agent) (t : Ptr)
      → Own v
      → HasTopic w t v
      → Back (with_topic library config node qos p (some t, v))
        ⊎ Here (with_topic library config node qos p (some t, v))
  unfolding with_topic
  with_topic-some v t c h =
      let w₁ = set_publisher p (record (v.publishers.at p) { topic = t }) v in
      let k₁ : Own w₁ = set-Own v (record (v.publishers.at p) { topic = t }) c refl in
      let (published, w₂) = ask_publisher library config node p w₁ in
      let k₂ : Own w₂ = unfold ask_publisher in (set-Own w₁ _ k₁ refl) in
      let h₂ : (w₂.publishers.at p).topic ≡ t = unfold ask_publisher in (rw (==_self p) refl) in
      let (written, w₃) = ask_datawriter library config node qos p w₂ in
      let k₃ : Own w₃ = unfold ask_datawriter in (set-Own w₂ _ k₂ refl) in
      let h₃ : (w₃.publishers.at p).topic ≡ t =
        unfold ask_datawriter ask_publisher in (rw (==_self p) refl) in
      elim (Bool-cases published) [
        | inl e ↦ rw e (
            finish-With publisher_slot Publisher.topic w p ps ne w₃ written k₃
              (rw h₃ (unfold ask_datawriter ask_publisher in h)))
        | inr e ↦ rw e (
            inl (
              fail-With publisher_slot Publisher.topic w p ps ne w₂ k₂
                (rw h₂ (unfold ask_publisher in h))))
      ]

  with_support-cases :
      (topic_name : List ℕ) (support : Option (Option Members)) (v : World Agent)
      → Own v
      → Without publisher_slot Publisher.topic w p ps ne v
      → has 0 w.topics.memory.free ≡ false
      → Back (with_support library config node topic_name support qos p v)
        ⊎ Here (with_support library config node topic_name support qos p v)
  unfolding with_support
  with_support-cases topic_name none v c n nz =
      inl (fail-Without publisher_slot Publisher.topic w p ps ne v c n)
  with_support-cases topic_name (some none) v c n nz = inl (
      fail-Without publisher_slot Publisher.topic w p ps ne
        (set_publisher p (record (v.publishers.at p) { members = none }) v) (set-Own v _ c refl)
        (rw (==_self p) n.0, n.1))
  with_support-cases topic_name (some (some members)) v c n nz =
      let u = set_publisher p (record (v.publishers.at p) { members = some members }) v in
      with-Created publisher_slot Publisher.topic w p ps ne library config node
        (with_topic library config node qos p) with_topic-none with_topic-some u
        (set-Own v _ c refl) n.1 nz (create_topic library config node topic_name members u)
        (create_topic-cases library config node topic_name members u)

  pub build_publisher-cases :
      (topic_name : List ℕ) (support : Option (Option Members))
      → (w.publishers.at p).topic ≡ 0
      → has 0 w.topics.memory.free ≡ false
      → let v : World Agent = record w {
        publishers =
            with_memory
              (record { allocated = p ∷ w.publishers.memory.allocated; free = ps })
              w.publishers;
      } in
        Back (build_publisher library config node topic_name support qos p v)
        ⊎ Here (build_publisher library config node topic_name support qos p v)
  unfolding build_publisher
  build_publisher-cases topic_name support reset nz =
      let v : World Agent = record w {
        publishers =
            with_memory (record { allocated = p ∷ w.publishers.memory.allocated; free = ps })
              w.publishers;
      } in
      let w₁ = claim_publisher p v in
      let c₁ : Own w₁ =
        unfold claim_publisher in (claim-Claimed publisher_handle w.publishers p ps ne) in
      let n₁ : Without publisher_slot Publisher.topic w p ps ne w₁ =
        unfold claim_publisher claim in (rw (==_self p) reset, refl) in
      elim (Bool-cases (ltb config.topic_name_max_length (length topic_name + 1))) [
        | inl e ↦ rw e (inl (fail-Without publisher_slot Publisher.topic w p ps ne w₁ c₁ n₁))
        | inr e ↦ rw e (
            with_support-cases topic_name support
              (describe_publisher library config node topic_name qos p w₁)
              (unfold describe_publisher in (set-Own w₁ _ c₁ refl))
              (unfold describe_publisher in (rw (==_self p) n₁.0, n₁.1)) nz)
      ]
