-- ===== src/Topic.antt =====
-- Topics: rmw_microxrcedds_topic.c and `rmw_uxrce_fini_topic_memory` of types.c
-- (rmw_microxrcedds_c/src), in the build without RMW_UXRCE_USE_REFS.
pub mod Memory
use rmw_microxrcedds.Prelude.{
  ℕ, ◌+◌, Bool, true, false, not, ◌&&◌, Option, none, some, List, [], ◌∷◌, ◌==◌, if◌then◌else◌,
}
use rmw_microxrcedds.Prelude.Words.{increment16}
use rmw_microxrcedds.Pool
use rmw_microxrcedds.Types.{Ptr, RmwRet, ret_ok, ret_error, ret_timeout, Members}
use rmw_microxrcedds.Entity.{set_entity, with_memory, set_at}
use rmw_microxrcedds.Names.{generate_topic_name, generate_type_name}
use rmw_microxrcedds.Xrce.{
  topic_kind, create_topic_bin, delete_entity, XrceLibrary, Config, Context, Topic, World,
  context_of, set_context, ask_creation, ask_destroy,
}

module _ {Agent : Type 0} where
  -- `rmw_uxrce_fini_topic_memory`
  unfoldable pub fini_topic_memory : Ptr → World Agent → World Agent
  fini_topic_memory t w = record w {
    topics = record {
      memory = Pool.put t w.topics.memory;
      at = set_at t (record (w.topics.at t) { owner_node = 0 }) w.topics.at;
    };
  }

  -- `if (topic != NULL) { rmw_uxrce_fini_topic_memory(topic); }`
  unfoldable pub drop_topic : Ptr → World Agent → World Agent
  drop_topic t w = if t == 0 then w else fini_topic_memory t w

  -- The two loops of `topic_count`: publishers and subscriptions of the node with a topic.
  unfoldable pub count_publishers : World Agent → Ptr → List Ptr → ℕ → ℕ
  count_publishers w node [] count = count
  count_publishers w node (x ∷ xs) count =
      let d = w.publishers.at x in
      count_publishers w node xs
        (if d.owner_node == node && not (d.topic == 0) then count + 1 else count)

  unfoldable pub count_subscriptions : World Agent → Ptr → List Ptr → ℕ → ℕ
  count_subscriptions w node [] count = count
  count_subscriptions w node (x ∷ xs) count =
      let d = w.subscriptions.at x in
      count_subscriptions w node xs
        (if d.owner_node == node && not (d.topic == 0) then count + 1 else count)

  -- `topic_count`
  unfoldable pub topic_count : World Agent → Ptr → ℕ
  topic_count w node =
      count_subscriptions w node w.subscriptions.memory.allocated
        (count_publishers w node w.publishers.memory.allocated 0)

module _ {Agent : Type 0} (library : XrceLibrary Agent) (config : Config) where
  -- The fields of a new topic, and the counter of its context.
  unfoldable pub init_topic : Ptr → Members → Ptr → World Agent → World Agent
  init_topic node members t w =
      let context = context_of w node in
      set_context (w.nodes.at node).context
        (record context { id_topic = increment16 context.id_topic })
        (record w {
          topics =
              set_entity t
                (record {
                  topic_id = library.object_id context.id_topic topic_kind;
                  members = members;
                  owner_node = node;
                })
                w.topics;
        })

  -- The result of the creation's session: the topic, or the label `fail`.
  unfoldable pub finish_topic : Ptr → Bool → World Agent → Option Ptr × World Agent
  finish_topic t done w = if done then (some t, w) else (none, fini_topic_memory t w)

  unfoldable pub ask_topic : Ptr → List ℕ → List ℕ → Ptr → World Agent → Bool × World Agent
  unfolding ask_creation
  ask_topic node full_topic_name type_name t w =
      ask_creation library node
        (create_topic_bin (w.topics.at t).topic_id (w.nodes.at node).participant_id full_topic_name
          type_name)
        w

  -- `create_topic` with an item from the pool.
  unfoldable pub build_topic : Ptr → List ℕ → Members → Ptr → World Agent → Option Ptr × World Agent
  build_topic node topic_name members t w =
      let w₁ = init_topic node members t w in
      let (named, full_topic_name) = generate_topic_name topic_name config.topic_name_max_length in
      let (typed, type_name) = generate_type_name members config.type_name_max_length in
      let (done, w₂) = ask_topic node full_topic_name type_name t w₁ in
      if named
      then if typed then finish_topic t done w₂ else finish_topic t false w₁
      else finish_topic t false w₁

  unfoldable pub topic_in :
      Ptr → List ℕ → Members → Option Ptr × Pool.Pool → World Agent → Option Ptr × World Agent
  topic_in node topic_name members (none, memory) w = (none, w)
  topic_in node topic_name members (some t, memory) w =
      build_topic node topic_name members t (record w { topics = with_memory memory w.topics })

  -- `create_topic`
  unfoldable pub create_topic : Ptr → List ℕ → Members → World Agent → Option Ptr × World Agent
  create_topic node topic_name members w =
      topic_in node topic_name members (Pool.get w.topics.memory) w

  -- The branch of `destroy_topic` for a topic with an owner.
  unfoldable pub delete_topic : Ptr → Ptr → World Agent → RmwRet × World Agent
  unfolding ask_destroy
  delete_topic node t w =
      let (done, w₁) = ask_destroy library node (delete_entity (w.topics.at t).topic_id) w in
      (if done then ret_ok else ret_timeout, fini_topic_memory t w₁)

  -- `destroy_topic`
  unfoldable pub destroy_topic : Ptr → World Agent → RmwRet × World Agent
  destroy_topic t w =
      if (w.topics.at t).owner_node == 0
      then (ret_error, w)
      else delete_topic (w.topics.at t).owner_node t w
