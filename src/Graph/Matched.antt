-- ===== src/Graph/Matched.antt =====
-- Counting the entities that a publisher or a subscription is matched with:
-- `rmw_publisher_count_matched_subscriptions` of rmw_publisher.c and
-- `rmw_subscription_count_matched_publishers` of rmw_subscription.c (rmw_microxrcedds_c/src).
use rmw_microxrcedds.Prelude.{
  ℕ, ◌≡◌, refl, sym, ap, ◌∙◌, Bool, true, Option, none, some, [], length, arith, if◌then◌else◌,
}
use mathlib.Core.Path.{subst⁻¹}
use rmw_microxrcedds.Types.{
  Ptr, Handle, RmwRet, ret_ok, ret_error, ret_invalid_argument, ret_incorrect_rmw_implementation,
}
use rmw_microxrcedds.Identifiers.{identifiers_match}
use rmw_microxrcedds.Graph.{Text, Graph, CdrLibrary}
use rmw_microxrcedds.Graph.Grammar.{GraphAt}
use rmw_microxrcedds.Graph.Query.{
  matching, EntityKinds, GraphWorld, graph_info_of, with_graph_related,
}
use rmw_microxrcedds.Graph.Count.{
  count_nodes, count_on, rmw_count_entities, rmw_count_publishers, rmw_count_subscribers,
  count_nodes_lem,
}
use rmw_microxrcedds.Graph.EndpointInfo.{
  EndpointLibrary, endpoint_kind_to_endpoint_type, Progress, Infos, add_nodes, end,
  endpoint_info_on, rmw_get_endpoint_info_by_topic, rmw_get_publishers_info_by_topic,
  rmw_get_subscriptions_info_by_topic,
}
use rmw_microxrcedds.Graph.AllEndpoints.{add_nodes-Described}
use rmw_microxrcedds.Graph.Described.{typed, Suffices, Described-length}

-- RMW_RET_OK if both are.
abbrev pub both_ok : RmwRet → RmwRet → RmwRet
both_ok ret_ok ret_ok = ret_ok
both_ok _ _ = ret_error

-- The size of the array, if it was fetched.
abbrev pub counted : RmwRet → ℕ → ℕ → ℕ
counted ret_ok size count = size
counted _ size count = count

module _ {Agent Buffer Memory : Type 0} (cdr : CdrLibrary Buffer) (library : EndpointLibrary Memory)
    (kinds : EntityKinds) (w : GraphWorld Agent) where
  -- What the two functions do with the array: what they answer, what they store, and the heap.
  unfoldable pub count_and_fini : ℕ → Option (RmwRet × Infos library) → Option (RmwRet × ℕ × Memory)
  count_and_fini count none = none
  count_and_fini count (some (ret, (infos, memory))) =
      let (fini, memory') = library.array_fini infos memory in
      some (both_ok ret fini, counted ret (length infos) count, memory')

  -- `rmw_publisher_count_matched_subscriptions`: the publisher, `subscription_count`, and the heap.
  unfoldable pub rmw_publisher_count_matched_subscriptions :
      Ptr → ℕ → Memory → Option (RmwRet × ℕ × Memory)
  unfolding count_and_fini
  rmw_publisher_count_matched_subscriptions p count memory =
      let publisher = w.world.publishers.at p in
      count_and_fini count (
        rmw_get_subscriptions_info_by_topic cdr library kinds w
          (some (w.world.nodes.at publisher.owner_node).handle) library.default_allocator
          publisher.topic_name [] memory)

  -- `rmw_subscription_count_matched_publishers`
  unfoldable pub rmw_subscription_count_matched_publishers :
      Ptr → ℕ → Memory → Option (RmwRet × ℕ × Memory)
  unfolding count_and_fini
  rmw_subscription_count_matched_publishers s count memory =
      let subscription = w.world.subscriptions.at s in
      count_and_fini count (
        rmw_get_publishers_info_by_topic cdr library kinds w
          (some (w.world.nodes.at subscription.owner_node).handle) library.default_allocator
          subscription.topic_name [] memory)

  -- The two counts agree, and neither reads through NULL.
  abbrev pub Agree : Option (RmwRet × ℕ × Memory) → RmwRet × Option ℕ → Type 0
  Agree matched answer =
      (n : ℕ) × (memory : Memory) × (matched ≡ some (answer.0, n, memory)) × (answer.1 ≡ some n)

  module _ (s : Suffices library) where
    count_and_fini-Agree :
        (ret : RmwRet) (i : Infos library) (n : ℕ) (r : Option (RmwRet × Infos library))
        → r ≡ some (ret, i)
        → counted ret (length i.0) 0 ≡ n
        → both_ok ret ret_ok ≡ ret
        → Agree (count_and_fini 0 r) (ret, some n)
    unfolding count_and_fini
    count_and_fini-Agree ret i n r e size same = (
      n,
      (library.array_fini i.0 i.1).1,
      ap (λ (t : Option (RmwRet × Infos library)). count_and_fini 0 t) e
          ∙ ap
              (λ (t : RmwRet).
                some (both_ok ret t, counted ret (length i.0) 0, (library.array_fini i.0 i.1).1))
              (s.fini i.0 i.1)
          ∙ ap
              (λ (t : RmwRet). some (t, counted ret (length i.0) 0, (library.array_fini i.0 i.1).1))
              same
          ∙ ap (λ (k : ℕ). some (ret, k, (library.array_fini i.0 i.1).1)) size,
      refl,
    )

    fetch :
        (kind : ℕ) (node : Handle) (topic_name : Text) (memory : Memory)
        → identifiers_match node.implementation_identifier ≡ true
        → rmw_get_endpoint_info_by_topic cdr library kinds w kind
            (some node)
            library.default_allocator
            topic_name
            []
            memory
          ≡ endpoint_info_on cdr library kinds w kind node topic_name [] memory ret_ok
    unfolding rmw_get_endpoint_info_by_topic
    fetch kind node topic_name memory valid =
        let on = endpoint_info_on cdr library kinds w kind node topic_name [] memory in
        let invalid = some (ret_invalid_argument, ([], memory)) in
        let asked = if library.default_allocator then on (library.check_zero []) else invalid in
        ap
          (λ (b : Bool). if b then asked else some (ret_incorrect_rmw_implementation, ([], memory)))
          valid
        ∙ ap (λ (b : Bool). if b then on (library.check_zero []) else invalid) s.allocator
        ∙ ap (λ (ret : RmwRet). on ret) s.zero

    fetched-Agree :
        (kind : ℕ) (node : Handle) (topic_name : Text) (memory : Memory)
        → identifiers_match node.implementation_identifier ≡ true
        → ((nodes : Graph)
            → GraphAt cdr (graph_info_of w node) nodes
            → typed (matching kind topic_name nodes) ≡ true)
        → Agree
            (count_and_fini 0 (
              rmw_get_endpoint_info_by_topic cdr library kinds w kind
                (some node)
                library.default_allocator
                topic_name
                []
                memory))
            (count_on cdr w kind node (some topic_name) (some 0))
    unfolding count_on endpoint_info_on end
    fetched-Agree kind node topic_name memory valid has =
        let type = endpoint_kind_to_endpoint_type kinds kind in
        let P : Option (RmwRet × Infos library) → RmwRet × Option ℕ → Type 0 =
          λ r c. Agree (count_and_fini 0 r) c in
        let query : Graph → Option (RmwRet × Infos library) =
          λ nodes. end library (add_nodes library kind type topic_name nodes ([], memory)) in
        let held : (nodes : Graph)
            → GraphAt cdr (graph_info_of w node) nodes
            → P (query nodes) (ret_ok, some (count_nodes kind topic_name nodes 0)) =
          λ nodes at.
            let (y, e, d) =
              add_nodes-Described library s kind type topic_name nodes memory (has nodes at) in
            count_and_fini-Agree ret_ok y (count_nodes kind topic_name nodes 0) (query nodes)
              (ap (λ (a : Progress (Infos library)). end library a) e)
              (Described-length type y.0 (matching kind topic_name nodes) d
                ∙ (omega arith ∙ sym (count_nodes_lem kind topic_name nodes 0)))
              refl in
        subst⁻¹ (λ t. P t (count_on cdr w kind node (some topic_name) (some 0)))
          (fetch kind node topic_name memory valid)
          (with_graph_related cdr P (graph_info_of w node) (some (ret_ok, ([], memory)))
            (some (ret_error, ([], memory))) query (ret_ok, some 0) (ret_error, some 0)
            (λ nodes. (ret_ok, some (count_nodes kind topic_name nodes 0)))
            (count_and_fini-Agree ret_ok ([], memory) 0 (some (ret_ok, ([], memory))) refl refl
              refl)
            (count_and_fini-Agree ret_error ([], memory) 0 (some (ret_error, ([], memory))) refl
              refl refl)
            held)

    count_valid :
        (kind : ℕ) (node : Handle) (topic_name : Text) (memory : Memory)
        → identifiers_match node.implementation_identifier ≡ true
        → {matched : Option (RmwRet × ℕ × Memory)}
        → Agree matched (count_on cdr w kind node (some topic_name) (some 0))
        → Agree matched (rmw_count_entities cdr w kind (some node) (some topic_name) (some 0))
    unfolding rmw_count_entities
    count_valid kind node topic_name memory valid {matched = matched} a =
        let there = count_on cdr w kind node (some topic_name) (some 0) in
        subst⁻¹
          (λ (b : Bool).
            Agree matched (if b then there else (ret_incorrect_rmw_implementation, some 0)))
          valid a

    -- If the rmw library has memory, the handle of the publisher's node is of this implementation,
    -- and each subscription on the topic in the graph has a type, then
    -- `rmw_publisher_count_matched_subscriptions` does not read through NULL, and from a count of 0
    -- it answers and stores what `rmw_count_subscribers` does for the publisher's node and topic.
    pub rmw_publisher_count_matched_subscriptions-Agree :
        (p : Ptr) (memory : Memory)
        → let publisher = w.world.publishers.at p in
          let node = (w.world.nodes.at publisher.owner_node).handle in
          identifiers_match node.implementation_identifier ≡ true
          → ((nodes : Graph)
              → GraphAt cdr (graph_info_of w node) nodes
              → typed (matching kinds.subscriber publisher.topic_name nodes) ≡ true)
          → Agree
              (rmw_publisher_count_matched_subscriptions p 0 memory)
              (rmw_count_subscribers cdr w kinds (some node) (some publisher.topic_name) (some 0))
    unfolding rmw_publisher_count_matched_subscriptions rmw_get_subscriptions_info_by_topic
        rmw_count_subscribers rmw_count_entities
    rmw_publisher_count_matched_subscriptions-Agree p memory valid has =
        let publisher = w.world.publishers.at p in
        let node = (w.world.nodes.at publisher.owner_node).handle in
        count_valid kinds.subscriber node publisher.topic_name memory valid
          (fetched-Agree kinds.subscriber node publisher.topic_name memory valid has)

    -- The same for `rmw_subscription_count_matched_publishers`.
    pub rmw_subscription_count_matched_publishers-Agree :
        (p : Ptr) (memory : Memory)
        → let subscription = w.world.subscriptions.at p in
          let node = (w.world.nodes.at subscription.owner_node).handle in
          identifiers_match node.implementation_identifier ≡ true
          → ((nodes : Graph)
              → GraphAt cdr (graph_info_of w node) nodes
              → typed (matching kinds.publisher subscription.topic_name nodes) ≡ true)
          → Agree
              (rmw_subscription_count_matched_publishers p 0 memory)
              (rmw_count_publishers cdr w kinds (some node) (some subscription.topic_name) (some 0))
    unfolding rmw_subscription_count_matched_publishers rmw_get_publishers_info_by_topic
        rmw_count_publishers rmw_count_entities
    rmw_subscription_count_matched_publishers-Agree p memory valid has =
        let subscription = w.world.subscriptions.at p in
        let node = (w.world.nodes.at subscription.owner_node).handle in
        count_valid kinds.publisher node subscription.topic_name memory valid
          (fetched-Agree kinds.publisher node subscription.topic_name memory valid has)
