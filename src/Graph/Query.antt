-- ===== src/Graph/Query.antt =====
-- What the queries on the graph share: the comparison of two texts, the graph of a node's context,
-- and the endpoints of a graph by kind and name.
use rmw_microxrcedds.Prelude.{
  ℕ, ◌≡◌, refl, ap, ◌∙◌, ◌⊎◌, Bool-cases, inl, inr, Bool, true, false, ◌&&◌, List, [], ◌∷◌, ◌++◌,
  arith, ◌==◌, if◌then◌else◌,
}
use mathlib.Core.Path.{subst⁻¹}
use rmw_microxrcedds.Types.{Ptr, GraphInfo, Handle, RmwRet, ret_ok, ret_error}
use rmw_microxrcedds.Xrce.{World}
use rmw_microxrcedds.Graph.Grammar.{GraphAt}
use rmw_microxrcedds.Graph.Fill.{fill-cases, rmw_graph_fill_data_from_buffer-reads}
use rmw_microxrcedds.Graph.{
  Text, GraphEntity, GraphNode, Graph, CdrLibrary, rmw_graph_fill_data_from_buffer,
}

-- `0 == strcmp(a, b)`
unfoldable pub equal : Text → Text → Bool
equal [] [] = true
equal [] (y ∷ ys) = false
equal (x ∷ xs) [] = false
equal (x ∷ xs) (y ∷ ys) = (x == y) && equal xs ys

pub equal-path : (s t : Text) → equal s t ≡ true → s ≡ t
unfolding equal
equal-path [] [] h = refl
equal-path [] (y ∷ ys) h = absurd (ground (arith, h))
equal-path (x ∷ xs) [] h = absurd (ground (arith, h))
equal-path (x ∷ xs) (y ∷ ys) h =
    let here : x ≡ y = ground (arith, h) in
    let there : equal xs ys ≡ true = ground (arith, h) in
    rw here (ap (λ (zs : Text). y ∷ zs) (equal-path xs ys there))

pub equal_self : (s : Text) → equal s s ≡ true
unfolding equal
equal_self [] = refl
equal_self (x ∷ xs) = ground (arith, equal_self xs)

module _ {A : Type 0} where
  unfoldable pub filter_by : (A → Bool) → List A → List A
  filter_by p [] = []
  filter_by p (x ∷ xs) = let rest = filter_by p xs in if p x then x ∷ rest else rest

  pub filter_by-append :
      (p : A → Bool) (xs ys : List A) → filter_by p (xs ++ ys) ≡ filter_by p xs ++ filter_by p ys
  unfolding filter_by
  filter_by-append p [] ys = refl
  filter_by-append p (x ∷ xs) ys = elim (Bool-cases (p x)) [
    | inl e ↦ rw e (ap (λ (l : List A). x ∷ l) (filter_by-append p xs ys))
    | inr e ↦ rw e (filter_by-append p xs ys)
  ]

-- An entity with its node.
abbrev pub Endpoint : Type 0
Endpoint = GraphNode × GraphEntity

unfoldable pub endpoints_of : GraphNode → List GraphEntity → List Endpoint
endpoints_of n [] = []
endpoints_of n (e ∷ es) = (n, e) ∷ endpoints_of n es

unfoldable pub endpoints : Graph → List Endpoint
endpoints [] = []
endpoints (n ∷ ns) = endpoints_of n n.entities ++ endpoints ns

-- The test of the loops: the kind and the name.
abbrev pub matches : ℕ → Text → GraphEntity → Bool
matches kind topic_name e = equal topic_name e.name && (kind == e.entity_type)

-- The endpoints of that kind and name, in the graph's order.
abbrev pub matching : ℕ → Text → Graph → List Endpoint
matching kind topic_name g = filter_by (λ (p : Endpoint). matches kind topic_name p.1) (endpoints g)

-- The values of the constants of `micro_ros_msgs/msg/Entity`.
pub record EntityKinds : Type 0 where
  pub publisher : ℕ
  pub subscriber : ℕ
  pub service_server : ℕ
  pub service_client : ℕ

-- The state that the queries read: the entities, and the graph of each context.
pub record GraphWorld (Agent : Type 0) : Type 0 where
  pub world : World Agent
  pub graphs : Ptr → GraphInfo

-- `&custom_node->context->graph_info`
abbrev pub graph_info_of : {Agent : Type 0} → GraphWorld Agent → Handle → GraphInfo
graph_info_of w node = w.graphs (w.world.nodes.at node.contents).context

-- What the queries do with the answer of the reading: an error ends the query.
unfoldable pub on_graph : {R : Type 0} → (Graph → R) → R → RmwRet × Graph → R
on_graph query failed (ret_ok, nodes) = query nodes
on_graph query failed (_, nodes) = failed

module _ {Buffer R : Type 0} (cdr : CdrLibrary Buffer) where
  -- The part that the queries share: the result when no graph came yet, when the graph cannot
  -- be read, and on a graph.
  unfoldable pub with_graph : GraphInfo → R → R → (Graph → R) → R
  unfolding on_graph
  with_graph g none_yet failed query =
      if g.initialized
      then on_graph query failed (rmw_graph_fill_data_from_buffer cdr g)
      else none_yet

  -- The case that occurs, and the result in it.
  abbrev pub Answers : GraphInfo → R → R → (Graph → R) → R → Type 0
  Answers g none_yet failed query r =
      ((g.initialized ≡ false) × (r ≡ none_yet))
      ⊎ ((nodes : Graph) × (g.initialized ≡ true) × GraphAt cdr g nodes × (r ≡ query nodes))
      ⊎ ((g.initialized ≡ true) × ((nodes : Graph) → ¬ GraphAt cdr g nodes) × (r ≡ failed))

  on_graph_failed :
      (query : Graph → R) (failed : R) (a : RmwRet × Graph)
      → a.0 ≡ ret_error
      → on_graph query failed a ≡ failed
  unfolding on_graph
  on_graph_failed query failed a e = rw e refl

  pub with_graph-Answers :
      (g : GraphInfo) (none_yet failed : R) (query : Graph → R)
      → Answers g none_yet failed query (with_graph g none_yet failed query)
  unfolding with_graph on_graph
  with_graph-Answers g none_yet failed query =
      let read = on_graph query failed (rmw_graph_fill_data_from_buffer cdr g) in
      elim (Bool-cases g.initialized) [
        | inr e ↦ inl (e, ap (λ (b : Bool). if b then read else none_yet) e)
        | inl e ↦
            let there = ap (λ (b : Bool). if b then read else none_yet) e in
            elim (fill-cases cdr g) [
              | inl (nodes, at, h) ↦ inr (
                  inl
                    (nodes, e, at, there ∙ ap (λ (t : RmwRet × Graph). on_graph query failed t) h))
              | inr (not_at, wrong) ↦ inr (
                  inr (
                    e,
                    not_at,
                    there
                        ∙ on_graph_failed query failed (rmw_graph_fill_data_from_buffer cdr g)
                            wrong,
                  ))
            ]
      ]

  pub with_graph_held :
      (g : GraphInfo) (none_yet failed : R) (query : Graph → R) (nodes : Graph)
      → g.initialized ≡ true
      → GraphAt cdr g nodes
      → with_graph g none_yet failed query ≡ query nodes
  unfolding with_graph on_graph
  with_graph_held g none_yet failed query nodes e at =
      let read = on_graph query failed (rmw_graph_fill_data_from_buffer cdr g) in
      ap (λ (b : Bool). if b then read else none_yet) e
      ∙ ap (λ (t : RmwRet × Graph). on_graph query failed t)
          ((rmw_graph_fill_data_from_buffer-reads cdr g nodes).1 at)

  pub Answers-congr :
      (g : GraphInfo) {none_yet failed r : R} {query query' : Graph → R}
      → ((nodes : Graph) → query nodes ≡ query' nodes)
      → Answers g none_yet failed query r
      → Answers g none_yet failed query' r
  Answers-congr g same (inl a) = inl a
  Answers-congr g same (inr (inl (nodes, e, at, r))) = inr (inl (nodes, e, at, r ∙ same nodes))
  Answers-congr g same (inr (inr c)) = inr (inr c)

module _ {Buffer R R' : Type 0} (cdr : CdrLibrary Buffer) where
  -- Two queries on the same graph have related results if they have in each case.
  pub with_graph_related :
      (P : R → R' → Type 0) (g : GraphInfo) (none_yet failed : R) (query : Graph → R)
      (none_yet' failed' : R') (query' : Graph → R')
      → P none_yet none_yet'
      → P failed failed'
      → ((nodes : Graph) → GraphAt cdr g nodes → P (query nodes) (query' nodes))
      → P (with_graph cdr g none_yet failed query) (with_graph cdr g none_yet' failed' query')
  unfolding with_graph on_graph
  with_graph_related P g none_yet failed query none_yet' failed' query' a b c =
      let read = rmw_graph_fill_data_from_buffer cdr g in
      let at_read : P (on_graph query failed read) (on_graph query' failed' read) =
        elim (fill-cases cdr g) [
          | inl (nodes, at, e) ↦
              subst⁻¹
                (λ (t : RmwRet × Graph). P (on_graph query failed t) (on_graph query' failed' t)) e
                (c nodes at)
          | inr (not_at, e) ↦
              subst⁻¹
                (λ (t : RmwRet).
                  P (on_graph query failed (t, read.1)) (on_graph query' failed' (t, read.1)))
                e b
        ] in
      elim (Bool-cases g.initialized) [
        | inl e ↦
            subst⁻¹
              (λ (t : Bool).
                P (if t then on_graph query failed read else none_yet)
                  (if t then on_graph query' failed' read else none_yet'))
              e at_read
        | inr e ↦
            subst⁻¹
              (λ (t : Bool).
                P (if t then on_graph query failed read else none_yet)
                  (if t then on_graph query' failed' read else none_yet'))
              e a
      ]
