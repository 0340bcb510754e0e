-- ===== src/Graph/ListedNames.antt =====
-- What the queries of rmw_topic_names_and_types.c, rmw_service_names_and_types.c and
-- rmw_node_info_and_types.c list (rmw_microxrcedds_c/src).
use rmw_microxrcedds.Prelude.{
  ℕ, ◌≡◌, ◌↔◌, ◌⊎◌, refl, ap, ◌∙◌, inl, inr, Bool, true, ◌&&◌, some, List, [], ◌∷◌, arith,
  Bool-cases, if◌then◌else◌,
}
use rmw_microxrcedds.Types.{Handle, RmwRet, ret_ok, ret_error, ret_incorrect_rmw_implementation}
use rmw_microxrcedds.Identifiers.{identifiers_match}
use rmw_microxrcedds.Graph.{Text, GraphEntity, Graph, CdrLibrary}
use rmw_microxrcedds.Graph.Grammar.{GraphAt}
use rmw_microxrcedds.Graph.Query.{equal, EntityKinds, GraphWorld, graph_info_of, with_graph_held}
use rmw_microxrcedds.Graph.NamesAndTypes.{
  NamesAndTypes, NamesLibrary, Listing, list_nodes, list_kind, list_of_node, names_and_types_on,
  get_names_and_types, is_topic, is_service, rmw_get_topic_names_and_types,
  rmw_get_service_names_and_types, rmw_get_entity_names_and_types_by_node,
}
use rmw_microxrcedds.Graph.Listed.{Allocates, all_entities, New, Adds, Succeeds}
use rmw_microxrcedds.Graph.ListedLoops.{list_entities-Adds, list_nodes-all, list_kind-Adds}

-- The entities of the first node of that name and namespace.
unfoldable pub entities_at : Text → Text → Graph → List GraphEntity
entities_at name ns [] = []
entities_at name ns (n ∷ rest) =
    let later = entities_at name ns rest in
    if equal name n.node_name && equal ns n.node_namespace then n.entities else later

list_of_node_lem :
    {Memory : Type 0} (library : NamesLibrary Memory) (kind : ℕ) (name ns : Text) (nodes : Graph)
    (l : Listing library)
    → list_of_node library kind name ns nodes l
      ≡ list_kind library kind (entities_at name ns nodes) l
unfolding list_of_node entities_at list_kind
list_of_node_lem library kind name ns [] l = refl
list_of_node_lem library kind name ns (n ∷ rest) l =
    elim (Bool-cases (equal name n.node_name && equal ns n.node_namespace)) [
      | inl t ↦ rw t refl
      | inr t ↦ rw t (list_of_node_lem library kind name ns rest l)
    ]

abbrev pub nothing : NamesAndTypes
nothing = record { names = []; types = [] }

module _ {Agent Buffer Memory : Type 0} (cdr : CdrLibrary Buffer) (library : NamesLibrary Memory)
    (kinds : EntityKinds) (w : GraphWorld Agent) where
  -- A kind of entities with topics.
  abbrev pub IsTopic : ℕ → Type 0
  IsTopic k = (k ≡ kinds.publisher) ⊎ (k ≡ kinds.subscriber)

  -- A kind of entities with services.
  abbrev pub IsService : ℕ → Type 0
  IsService k = (k ≡ kinds.service_server) ⊎ (k ≡ kinds.service_client)

  is_topic_iff : (k : ℕ) → (is_topic cdr library kinds w k ≡ true) ↔ IsTopic k
  is_topic_iff k = ground arith

  is_service_iff : (k : ℕ) → (is_service cdr library kinds w k ≡ true) ↔ IsService k
  is_service_iff k = ground arith

  -- The answer RMW_RET_OK, with the names and types of those of the entities that are wanted at
  -- their turn.
  abbrev pub ListsOf :
      (capacity : ℕ → ℕ)
      → Allocates library capacity
      → (NamesAndTypes → GraphEntity → Type 0)
      → List GraphEntity
      → RmwRet × Listing library
      → Type 0
  ListsOf capacity memory Wanted es r =
      Succeeds library capacity memory (Adds capacity Wanted es nothing) r

  get_names_and_types_lem :
      (list : Graph → Listing library → RmwRet × Listing library) (capacity : ℕ → ℕ)
      (memory : Allocates library capacity) (node : Handle) (m : Memory) (nodes : Graph)
      → identifiers_match node.implementation_identifier ≡ true
      → (graph_info_of w node).initialized ≡ true
      → GraphAt cdr (graph_info_of w node) nodes
      → get_names_and_types cdr library kinds w list (some node) true (nothing, m)
        ≡ list nodes (nothing, m)
  unfolding get_names_and_types names_and_types_on
  get_names_and_types_lem list capacity memory node m nodes valid first at =
      let on = names_and_types_on cdr library kinds w list node (nothing, m) in
      ap
        (λ (b : Bool).
          if b
          then on (library.check_zero nothing)
          else (ret_incorrect_rmw_implementation, (nothing, m)))
        valid
      ∙ ap (λ (ret : RmwRet). on ret) memory.zero
      ∙ with_graph_held cdr (graph_info_of w node) (ret_ok, (nothing, m)) (ret_error, (nothing, m))
          (λ nodes. list nodes (nothing, m)) nodes first at

  -- If there is memory for the arrays, and the buffer of the graph of a node of this implementation
  -- holds the graph, then both functions answer RMW_RET_OK. They go over the entities of all nodes
  -- in the graph's order and add those, and only those, whose name is not yet in the list:
  -- `rmw_get_topic_names_and_types` the publishers and subscribers, and
  -- `rmw_get_service_names_and_types` the servers and clients. Each name, and each type, is cut to
  -- one byte less than the capacity of the array of texts that it is put into, when it is put there.
  pub rmw_get_names_and_types-ListsOf :
      (capacity : ℕ → ℕ) (memory : Allocates library capacity) (node : Handle) (m : Memory)
      (nodes : Graph)
      → identifiers_match node.implementation_identifier ≡ true
      → (graph_info_of w node).initialized ≡ true
      → GraphAt cdr (graph_info_of w node) nodes
      → ListsOf capacity memory
          (New IsTopic)
          (all_entities nodes)
          (rmw_get_topic_names_and_types cdr library kinds w (some node) true (nothing, m))
        × ListsOf capacity memory
            (New IsService)
            (all_entities nodes)
            (rmw_get_service_names_and_types cdr library kinds w (some node) true (nothing, m))
  unfolding rmw_get_topic_names_and_types rmw_get_service_names_and_types
  rmw_get_names_and_types-ListsOf capacity memory node m nodes valid first at =
      let lists : (listed : ℕ → Bool) (Kind : ℕ → Type 0)
          → ((k : ℕ) → (listed k ≡ true) ↔ Kind k)
          → ListsOf capacity memory (New Kind) (all_entities nodes) (
              get_names_and_types cdr library kinds w (list_nodes library listed) (some node) true
                (nothing, m)) =
        λ listed Kind kind.
          let (end, m', e, adds) =
            list_entities-Adds library capacity memory listed Kind kind (all_entities nodes) nothing
              m in
          (
            end,
            m',
            get_names_and_types_lem (list_nodes library listed) capacity memory node m nodes valid
                  first at
                ∙ list_nodes-all library capacity memory listed nodes (nothing, m)
                ∙ e,
            adds,
          ) in
      (
        lists (is_topic cdr library kinds w) IsTopic is_topic_iff,
        lists (is_service cdr library kinds w) IsService is_service_iff,
      )

  -- If there is memory for the arrays, and the buffer of the graph of a node of this implementation
  -- holds the graph, then the query for a kind of entities of a node answers RMW_RET_OK and lists
  -- all those of that kind of the first node of the given name and namespace, in its order, and none
  -- if there is no such node.
  pub rmw_get_entity_names_and_types_by_node-ListsOf :
      (kind : ℕ) (capacity : ℕ → ℕ) (memory : Allocates library capacity) (node : Handle)
      (name ns : Text) (m : Memory) (nodes : Graph)
      → identifiers_match node.implementation_identifier ≡ true
      → (graph_info_of w node).initialized ≡ true
      → GraphAt cdr (graph_info_of w node) nodes
      → ListsOf capacity memory
          (λ l e. kind ≡ e.entity_type)
          (entities_at name ns nodes)
          (rmw_get_entity_names_and_types_by_node cdr library kinds w kind
            (some node)
            true
            name
            ns
            (nothing, m))
  unfolding rmw_get_entity_names_and_types_by_node
  rmw_get_entity_names_and_types_by_node-ListsOf kind capacity memory node name ns m nodes valid
        first at =
      let (end, m', e, adds) =
        list_kind-Adds library capacity memory kind (entities_at name ns nodes) nothing m in
      (
        end,
        m',
        get_names_and_types_lem (list_of_node library kind name ns) capacity memory node m nodes
              valid first at
            ∙ list_of_node_lem library kind name ns nodes (nothing, m)
            ∙ e,
        adds,
      )
