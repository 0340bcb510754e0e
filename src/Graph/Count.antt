-- ===== src/Graph/Count.antt =====
-- Counting the publishers and subscribers of a topic: rmw_count.c (rmw_microxrcedds_c/src).
use rmw_microxrcedds.Prelude.{
  ℕ, ◌+◌, ◌≡◌, ap, ◌∙◌, Bool-cases, inl, inr, Bool, true, Option, none, some, List, [], ◌∷◌, length,
  length-append, arith, if◌then◌else◌,
}
use rmw_microxrcedds.Types.{
  Handle, RmwRet, ret_ok, ret_error, ret_invalid_argument, ret_incorrect_rmw_implementation,
}
use rmw_microxrcedds.Identifiers.{identifiers_match}
use rmw_microxrcedds.Graph.{Text, GraphEntity, GraphNode, Graph, CdrLibrary}
use rmw_microxrcedds.Graph.Query.{
  filter_by, filter_by-append, Endpoint, endpoints_of, endpoints, matches, matching, EntityKinds,
  GraphWorld, graph_info_of, with_graph, Answers, with_graph-Answers, Answers-congr,
}

-- The loops that look for the topic.
unfoldable pub count_entities : ℕ → Text → List GraphEntity → ℕ → ℕ
count_entities kind topic_name [] count = count
count_entities kind topic_name (e ∷ es) count =
    count_entities kind topic_name es (if matches kind topic_name e then count + 1 else count)

unfoldable pub count_nodes : ℕ → Text → List GraphNode → ℕ → ℕ
count_nodes kind topic_name [] count = count
count_nodes kind topic_name (n ∷ ns) count =
    count_nodes kind topic_name ns (count_entities kind topic_name n.entities count)

module _ {Agent Buffer : Type 0} (cdr : CdrLibrary Buffer) (w : GraphWorld Agent) where
  -- The checks of the arguments after the node.
  unfoldable pub count_on : ℕ → Handle → Option Text → Option ℕ → RmwRet × Option ℕ
  count_on kind node none count = (ret_invalid_argument, count)
  count_on kind node (some topic_name) none = (ret_invalid_argument, none)
  count_on kind node (some topic_name) (some count) =
      with_graph cdr (graph_info_of w node) (ret_ok, some 0) (ret_error, some 0)
        (λ nodes. (ret_ok, some (count_nodes kind topic_name nodes 0)))

  -- `__rmw_count_entities`: what it answers, and what `count` points to after it. `none` is NULL.
  unfoldable pub rmw_count_entities : ℕ → Option Handle → Option Text → Option ℕ → RmwRet × Option ℕ
  rmw_count_entities kind none topic_name count = (ret_invalid_argument, count)
  rmw_count_entities kind (some node) topic_name count =
      if identifiers_match node.implementation_identifier
      then count_on kind node topic_name count
      else (ret_incorrect_rmw_implementation, count)

  module _ (kinds : EntityKinds) where
    -- `rmw_count_publishers`
    unfoldable pub rmw_count_publishers : Option Handle → Option Text → Option ℕ → RmwRet × Option ℕ
    rmw_count_publishers = rmw_count_entities kinds.publisher

    -- `rmw_count_subscribers`
    unfoldable pub rmw_count_subscribers :
        Option Handle → Option Text → Option ℕ → RmwRet × Option ℕ
    rmw_count_subscribers = rmw_count_entities kinds.subscriber

count_entities_lem :
    (kind : ℕ) (name : Text) (n : GraphNode) (es : List GraphEntity) (count : ℕ)
    → count_entities kind name es count
      ≡ length (filter_by (λ (p : Endpoint). matches kind name p.1) (endpoints_of n es)) + count
unfolding count_entities endpoints_of filter_by
count_entities_lem kind name n [] count = omega arith
count_entities_lem kind name n (e ∷ es) count = elim (Bool-cases (matches kind name e)) [
  | inl h ↦ rw h (count_entities_lem kind name n es (count + 1) ∙ omega arith)
  | inr h ↦ rw h (count_entities_lem kind name n es count)
]

pub count_nodes_lem :
    (kind : ℕ) (name : Text) (g : Graph) (count : ℕ)
    → count_nodes kind name g count ≡ length (matching kind name g) + count
unfolding count_nodes endpoints filter_by
count_nodes_lem kind name [] count = omega arith
count_nodes_lem kind name (n ∷ ns) count =
    let p : Endpoint → Bool = λ q. matches kind name q.1 in
    let both =
      ap (λ (l : List Endpoint). length l)
        (filter_by-append p (endpoints_of n n.entities) (endpoints ns))
      ∙ length-append (filter_by p (endpoints_of n n.entities)) (filter_by p (endpoints ns)) in
    let here = count_entities_lem kind name n n.entities count in
    let there = count_nodes_lem kind name ns (count_entities kind name n.entities count) in
    omega arith

module _ {Agent Buffer : Type 0} (cdr : CdrLibrary Buffer) (w : GraphWorld Agent) where
  -- The answer RMW_RET_OK, and the number of the endpoints of a kind and name.
  abbrev pub Counted : ℕ → Text → Graph → RmwRet × Option ℕ
  Counted kind topic_name nodes = (ret_ok, some (length (matching kind topic_name nodes)))

  pub count_on-Answers :
      (kind : ℕ) (node : Handle) (topic_name : Text) (count : ℕ)
      → Answers cdr
          (graph_info_of w node)
          (ret_ok, some 0)
          (ret_error, some 0)
          (Counted kind topic_name)
          (count_on cdr w kind node (some topic_name) (some count))
  unfolding count_on
  count_on-Answers kind node topic_name count =
      Answers-congr cdr (graph_info_of w node)
        (λ nodes.
          ap (λ (n : ℕ). (ret_ok, some n)) (count_nodes_lem kind topic_name nodes 0 ∙ omega arith))
        (with_graph-Answers cdr (graph_info_of w node) (ret_ok, some 0) (ret_error, some 0)
          (λ nodes. (ret_ok, some (count_nodes kind topic_name nodes 0))))

  -- On a node of this implementation, with a topic and a counter, both functions answer by the
  -- graph of the node's context. Before a first graph arrived the counts are 0. When the buffer
  -- holds a graph, they are the numbers of its publishers and of its subscribers of that name. When
  -- it holds none, the answer is RMW_RET_ERROR and the count 0.
  pub rmw_count-Answers :
      (kinds : EntityKinds) (node : Handle) (topic_name : Text) (count : ℕ)
      → identifiers_match node.implementation_identifier ≡ true
      → Answers cdr
          (graph_info_of w node)
          (ret_ok, some 0)
          (ret_error, some 0)
          (Counted kinds.publisher topic_name)
          (rmw_count_publishers cdr w kinds (some node) (some topic_name) (some count))
        × Answers cdr
            (graph_info_of w node)
            (ret_ok, some 0)
            (ret_error, some 0)
            (Counted kinds.subscriber topic_name)
            (rmw_count_subscribers cdr w kinds (some node) (some topic_name) (some count))
  unfolding rmw_count_publishers rmw_count_subscribers rmw_count_entities
  rmw_count-Answers kinds node topic_name count valid = rw valid (
    count_on-Answers kinds.publisher node topic_name count,
    count_on-Answers kinds.subscriber node topic_name count,
  )
