-- ===== src/Endpoint/Pools.antt =====
-- The pools across the creation of an entity with a topic, step by step.
use rmw_microxrcedds.Prelude.{
  ◌≡◌, ◌≢◌, refl, ap, ◌∙◌, ◌⊎◌, inl, inr, Bool, true, false, Option, none, some, List, ◌∷◌, has,
}
use rmw_microxrcedds.Types.{Ptr, Entities}
use rmw_microxrcedds.Entity.{fini_memory}
use rmw_microxrcedds.Entity.Claim.{Claimed, fini-Claimed}
use rmw_microxrcedds.Xrce.{XrceLibrary, Config, World, SameEntities}
use rmw_microxrcedds.Topic.{drop_topic}
use rmw_microxrcedds.Topic.Memory.{
  Failed, Created, Created-HasTopic, NoTopic, HasTopic, drop_topic-none, drop_topic-has,
  drop_topic-SameEntities,
}
use rmw_microxrcedds.Endpoint.{Slot, fail_with_topic, finish_with_topic}

module _ {Agent A : Type 0} (slot : Slot Agent A) (topic : A → Ptr) (w : World Agent) (x : Ptr)
    (xs : List Ptr) (ne : x ≢ 0) where
  abbrev pub Held : World Agent → Type 0
  Held v = Claimed slot.handled (slot.entities w) x xs ne (slot.entities v)

  abbrev pub Without : World Agent → Type 0
  Without v = NoTopic w (topic ((slot.entities v).at x)) v

  abbrev pub With : World Agent → Type 0
  With v = HasTopic w (topic ((slot.entities v).at x)) v

  -- Nothing was created, and the pools are as they were.
  pub record Restored (r : Option Ptr × World Agent) : Type 0 where
    pub returns : r.0 ≡ none
    pub entities :
        (slot.entities r.1).memory
        ≡ record { allocated = (slot.entities w).memory.allocated; free = x ∷ xs }
    pub topics : r.1.topics.memory ≡ w.topics.memory

  -- The entity was created, with a topic.
  pub record Made (r : Option Ptr × World Agent) : Type 0 where
    pub returns : r.0 ≡ some x
    pub claimed : Held r.1
    pub named : With r.1

  fail-drop :
      (v : World Agent)
      → Held v
      → (drop_topic (topic ((slot.entities v).at x)) v).topics.memory ≡ w.topics.memory
      → Restored (fail_with_topic slot topic x v)
  unfolding fail_with_topic
  fail-drop v c e =
      let u = drop_topic (topic ((slot.entities v).at x)) v in
      let same = slot.same v u (drop_topic-SameEntities (topic ((slot.entities v).at x)) v) in
      record {
        returns = refl;
        entities =
            ap Entities.memory (slot.entities-write _ u)
            ∙ (λ i. (fini_memory slot.handled x (same i)).memory)
            ∙ fini-Claimed slot.handled (slot.entities w) x xs ne (slot.entities v) c;
        topics =
            (λ i. (slot.write-topics (fini_memory slot.handled x (slot.entities u)) u i).memory)
            ∙ e;
      }

  -- A failure without a topic, and one with a topic.
  pub fail-Without :
      (v : World Agent) → Held v → Without v → Restored (fail_with_topic slot topic x v)
  fail-Without v c n = fail-drop v c (drop_topic-none w (topic ((slot.entities v).at x)) v n)

  pub fail-With : (v : World Agent) → Held v → With v → Restored (fail_with_topic slot topic x v)
  fail-With v c h = fail-drop v c (drop_topic-has w (topic ((slot.entities v).at x)) v h)

  pub finish-With :
      (v : World Agent) (done : Bool)
      → Held v
      → With v
      → Restored (finish_with_topic slot topic x done v)
        ⊎ Made (finish_with_topic slot topic x done v)
  unfolding finish_with_topic
  finish-With v true c h = inr (record { returns = refl; claimed = c; named = h })
  finish-With v false c h = inl (fail-With v c h)

  -- The creation of the topic leaves the entity as it was.
  pub same-Held : (u v : World Agent) → SameEntities u v → Held u → Held v
  same-Held u v same c =
      let e = slot.same u v same in
      record {
        memory = ap Entities.memory e ∙ c.memory;
        contents = (λ i. (slot.handled.get ((e i).at x)).contents) ∙ c.contents;
        identifier =
            (λ i. (slot.handled.get ((e i).at x)).implementation_identifier) ∙ c.identifier;
      }

  -- What is done with the result of `create_topic`, if it is known for both results.
  pub with-Created :
      (library : XrceLibrary Agent) (config : Config) (node : Ptr)
      (f : Option Ptr × World Agent → Option Ptr × World Agent)
      → ((v : World Agent) → Held v → v.topics.memory ≡ w.topics.memory → Restored (f (none, v)))
      → ((v : World Agent) (t : Ptr)
          → Held v
          → HasTopic w t v
          → Restored (f (some t, v)) ⊎ Made (f (some t, v)))
      → (u : World Agent) → Held u
      → u.topics.memory ≡ w.topics.memory
      → has 0 w.topics.memory.free ≡ false
      → (r : Option Ptr × World Agent) → Failed library config u r ⊎ Created library config node u r
      → Restored (f r) ⊎ Made (f r)
  with-Created library config node f fails goes u c e nz (x, v) (inl (g, m, same)) =
      rw g (inl (fails v (same-Held u v same c) (m ∙ e)))
  with-Created library config node f fails goes u c e nz (x, v) (inr (t, ts, free, g, m, o, same)) =
      rw g (goes v t (same-Held u v same c) (Created-HasTopic w u v t ts e nz free m))
