-- ===== src/Topic/Memory.antt =====
-- The pool of topics across `create_topic` and `destroy_topic`.
use rmw_microxrcedds.Prelude.{
  ℕ, ◌≡◌, ◌≢◌, refl, sym, ap, ◌∙◌, ◌⊎◌, inl, inr, Bool, true, false, Option, none, some, List, [],
  ◌∷◌, arith, Bool-cases, ==_self, ◌==◌, has,
}
use rmw_microxrcedds.Pool
use rmw_microxrcedds.Pool.{Pool}
use rmw_microxrcedds.Types.{Ptr, ret_error, Members}
use rmw_microxrcedds.Entity.Claim.{put-take}
use rmw_microxrcedds.Names.{generate_topic_name, generate_type_name}
use rmw_microxrcedds.Xrce.{XrceLibrary, Config, World, SameEntities, ask_destroy}
use rmw_microxrcedds.Topic.{
  fini_topic_memory, drop_topic, init_topic, finish_topic, ask_topic, build_topic, topic_in,
  create_topic, destroy_topic, delete_topic,
}

module _ {Agent : Type 0} (library : XrceLibrary Agent) (config : Config) where
  -- What `create_topic` does to the pool of topics and to the other entities.
  abbrev pub Failed : World Agent → Option Ptr × World Agent → Type 0
  Failed w r = (r.0 ≡ none) × (r.1.topics.memory ≡ w.topics.memory) × SameEntities w r.1

  abbrev pub Created : Ptr → World Agent → Option Ptr × World Agent → Type 0
  Created node w r =
      (t : Ptr) × (ts : List Ptr) × (w.topics.memory.free ≡ t ∷ ts)
      × (r.0 ≡ some t)
      × (r.1.topics.memory ≡ record { allocated = t ∷ w.topics.memory.allocated; free = ts })
      × ((r.1.topics.at t).owner_node ≡ node)
      × SameEntities w r.1

  module _ (node : Ptr) (topic_name : List ℕ) (members : Members) (w : World Agent) (t : Ptr)
      (ts : List Ptr) (free : w.topics.memory.free ≡ t ∷ ts) where
    taken : World Agent
    taken = record w {
      topics = record {
        memory = record { allocated = t ∷ w.topics.memory.allocated; free = ts };
        at = w.topics.at;
      };
    }

    -- After the initialisation the pool is as after `get_memory`, and the topic has its owner.
    finish-cases :
        (v : World Agent) (done : Bool)
        → v.topics.memory ≡ record { allocated = t ∷ w.topics.memory.allocated; free = ts }
        → (v.topics.at t).owner_node ≡ node
        → SameEntities w v
        → Failed w (finish_topic library config t done v)
          ⊎ Created node w (finish_topic library config t done v)
    unfolding finish_topic fini_topic_memory
    finish-cases v true e o u = inr (t, ts, free, refl, e, o, u)
    finish-cases v false e o u = inl (
      refl,
      ap (Pool.put t) e
          ∙ put-take w.topics.memory.allocated ts t
          ∙ (λ i. record { allocated = w.topics.memory.allocated; free = sym free i }),
      u,
    )

    build-cases :
        Failed w (build_topic library config node topic_name members t taken)
        ⊎ Created node w (build_topic library config node topic_name members t taken)
    unfolding build_topic taken
    build-cases =
        let w₁ = init_topic library config node members t taken in
        let (named, full) = generate_topic_name topic_name config.topic_name_max_length in
        let (typed, type_name) = generate_type_name members config.type_name_max_length in
        let owner : (w₁.topics.at t).owner_node ≡ node =
          unfold init_topic in (rw (==_self t) refl) in
        let memory : w₁.topics.memory
            ≡ record { allocated = t ∷ w.topics.memory.allocated; free = ts } =
          unfold init_topic in refl in
        let failed =
          finish-cases w₁ false memory owner
            (unfold init_topic in (refl, refl, refl, refl, refl)) in
        let done = ask_topic library config node full type_name t w₁ in
        elim (Bool-cases named) [
          | inl e ↦ elim (Bool-cases typed) [
            | inl e' ↦
                rw (e, e')
                  (unfold ask_topic in
                    (finish-cases done.1 done.0 memory owner
                      (unfold init_topic in (refl, refl, refl, refl, refl))))
            | inr e' ↦ rw (e, e') failed
          ]
          | inr e ↦ rw e failed
        ]

  topic_in-cases :
      (node : Ptr) (topic_name : List ℕ) (members : Members) (w : World Agent) (free : List Ptr)
      → w.topics.memory.free ≡ free
      → let r =
          topic_in library config node topic_name members
            (Pool.take w.topics.memory.allocated free)
            w in
        Failed w r ⊎ Created node w r
  unfolding topic_in Pool.take
  topic_in-cases node topic_name members w [] e = inl (refl, refl, (refl, refl, refl, refl, refl))
  topic_in-cases node topic_name members w (t ∷ ts) e =
      unfold taken in (build-cases node topic_name members w t ts e)

  -- `create_topic` either takes the first free topic, which is then the first allocated one and has
  -- the node as its owner, or returns NULL and leaves the pool of topics as it was, whatever step
  -- failed. It changes no other entity.
  pub create_topic-cases :
      (node : Ptr) (topic_name : List ℕ) (members : Members) (w : World Agent)
      → Failed w (create_topic library config node topic_name members w)
        ⊎ Created node w (create_topic library config node topic_name members w)
  unfolding create_topic Pool.get
  create_topic-cases node topic_name members w =
      topic_in-cases node topic_name members w w.topics.memory.free refl

  pub destroy_topic-SameEntities :
      (t : Ptr) (w : World Agent) → SameEntities w (destroy_topic library config t w).1
  unfolding destroy_topic delete_topic fini_topic_memory ask_destroy
  destroy_topic-SameEntities t w = elim (Bool-cases ((w.topics.at t).owner_node == 0)) [
    | inl e ↦ rw e (refl, refl, refl, refl, refl)
    | inr e ↦ rw e (refl, refl, refl, refl, refl)
  ]

  destroy_topic-owner :
      (t : Ptr) (w : World Agent)
      → ((destroy_topic library config t w).1.topics.at t).owner_node ≡ 0
  unfolding destroy_topic
  destroy_topic-owner t w = elim (Bool-cases ((w.topics.at t).owner_node == 0)) [
    | inl e ↦ rw e (ground (arith, e))
    | inr e ↦ rw e (unfold delete_topic fini_topic_memory in (rw (==_self t) refl))
  ]

  destroy_topic-none :
      (t : Ptr) (v : World Agent)
      → (v.topics.at t).owner_node ≡ 0
      → ((destroy_topic library config t v).0 ≡ ret_error)
        × ((destroy_topic library config t v).1 ≡ v)
  unfolding destroy_topic
  destroy_topic-none t v e = rw e (refl, refl)

  -- A topic that was destroyed has no owner, and destroying it once more answers RMW_RET_ERROR and
  -- changes nothing.
  pub destroy_topic_twice :
      (t : Ptr) (w : World Agent)
      → let v = (destroy_topic library config t w).1 in
        ((v.topics.at t).owner_node ≡ 0)
        × ((destroy_topic library config t v).0 ≡ ret_error)
        × ((destroy_topic library config t v).1 ≡ v)
  destroy_topic_twice t w =
      let e = destroy_topic-owner t w in
      let (answer, same) = destroy_topic-none t (destroy_topic library config t w).1 e in
      (e, answer, same)

module _ {Agent : Type 0} where
  -- The topic of an entity that is being created: none yet, or the one taken from the pool.
  abbrev pub NoTopic : World Agent → Ptr → World Agent → Type 0
  NoTopic w topic v = (topic ≡ 0) × (v.topics.memory ≡ w.topics.memory)

  abbrev pub HasTopic : World Agent → Ptr → World Agent → Type 0
  HasTopic w topic v =
      (t : Ptr) × (ts : List Ptr) × (w.topics.memory.free ≡ t ∷ ts)
      × (t ≢ 0)
      × (topic ≡ t)
      × (v.topics.memory ≡ record { allocated = t ∷ w.topics.memory.allocated; free = ts })

  -- A topic that was just created, when the pool of topics has no NULL.
  pub Created-HasTopic :
      (w u v : World Agent) (t : Ptr) (ts : List Ptr)
      → u.topics.memory ≡ w.topics.memory
      → has 0 w.topics.memory.free ≡ false
      → u.topics.memory.free ≡ t ∷ ts
      → v.topics.memory ≡ record { allocated = t ∷ u.topics.memory.allocated; free = ts }
      → HasTopic w t v
  Created-HasTopic w u v t ts e nz free m =
      let free' : w.topics.memory.free ≡ t ∷ ts = (λ i. (sym e i).free) ∙ free in
      let outside : has 0 (t ∷ ts) ≡ false = ap (has 0) (sym free') ∙ nz in
      (
        t,
        ts,
        free',
        ground (arith, outside),
        refl,
        m ∙ (λ i. record { allocated = t ∷ (e i).allocated; free = ts }),
      )

  pub drop_topic-none :
      (w : World Agent) (topic : Ptr) (v : World Agent)
      → NoTopic w topic v
      → (drop_topic topic v).topics.memory ≡ w.topics.memory
  unfolding drop_topic
  drop_topic-none w topic v (e, same) = rw e same

  pub drop_topic-has :
      (w : World Agent) (topic : Ptr) (v : World Agent)
      → HasTopic w topic v
      → (drop_topic topic v).topics.memory ≡ w.topics.memory
  unfolding drop_topic fini_topic_memory
  drop_topic-has w topic v (t, ts, free, ne, e, same) =
      let set : (t == 0) ≡ false = ground arith in
      rw (e, set)
        (ap (Pool.put t) same
          ∙ put-take w.topics.memory.allocated ts t
          ∙ (λ i. record { allocated = w.topics.memory.allocated; free = sym free i }))

pub drop_topic-SameEntities :
    {Agent : Type 0} (topic : Ptr) (v : World Agent) → SameEntities v (drop_topic topic v)
unfolding drop_topic fini_topic_memory
drop_topic-SameEntities topic v = elim (Bool-cases (topic == 0)) [
  | inl e ↦ rw e (refl, refl, refl, refl, refl)
  | inr e ↦ rw e (refl, refl, refl, refl, refl)
]
