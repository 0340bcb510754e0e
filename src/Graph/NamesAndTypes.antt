-- ===== src/Graph/NamesAndTypes.antt =====
-- The names and types of topics, of services, and of the entities of a node:
-- rmw_topic_names_and_types.c, rmw_service_names_and_types.c and rmw_node_info_and_types.c
-- (rmw_microxrcedds_c/src). The three files repeat the part that stores an entity, the first
-- two also the loops; it is translated once.
use rmw_microxrcedds.Prelude.{
  ℕ, ◌+◌, ◌*◌, ◌==◌, not, Bool, false, ◌&&◌, ◌||◌, Option, none, some, List, [], ◌∷◌, ◌++◌, length,
  if◌then◌else◌,
}
use rmw_microxrcedds.Types.{
  Handle, RmwRet, ret_ok, ret_error, ret_invalid_argument, ret_incorrect_rmw_implementation,
}
use rmw_microxrcedds.Names.{snprintf}
use rmw_microxrcedds.Identifiers.{identifiers_match}
use rmw_microxrcedds.Graph.{Text, GraphEntity, GraphNode, Graph, CdrLibrary}
use rmw_microxrcedds.Graph.Query.{equal, EntityKinds, GraphWorld, graph_info_of, with_graph}

-- `rmw_names_and_types_t`: the names, and the array of types of each. `types` is NULL when there
-- are none.
pub record NamesAndTypes : Type 0 where
  pub names : List Text
  pub types : List (List Text)

-- The functions on arrays of texts, and the allocator, on the state `Memory` of the heap. After
-- `string_array_init` and `string_array_resize` an array has its `capacity`.
pub record NamesLibrary (Memory : Type 0) : Type 0 where
  pub check_zero : NamesAndTypes → RmwRet
  pub string_array_init : ℕ → Memory → RmwRet × ℕ × Memory
  pub string_array_resize : ℕ → Memory → RmwRet × ℕ × Memory
  pub zero_allocate : ℕ → Memory → Memory
  pub reallocate : ℕ → Memory → Memory
  pub sizeof_string_array : ℕ

-- The result and the heap; an error jumps to `fini`.
unfoldable pub and_then : {S : Type 0} → (S → RmwRet × S) → RmwRet × S → RmwRet × S
and_then f (ret_ok, s) = f s
and_then f (_, s) = (ret_error, s)

-- The loop over the names: whether one of them is the text.
unfoldable pub already_included : Text → List Text → Bool
already_included name [] = false
already_included name (x ∷ xs) = equal x name || already_included name xs

module _ {Memory : Type 0} (library : NamesLibrary Memory) where
  abbrev pub Listing : Type 0
  Listing = NamesAndTypes × Memory

  -- Room for one more name: the answer, the capacity after it, and the heap.
  unfoldable pub more_names : List Text → Memory → RmwRet × ℕ × Memory
  more_names [] memory = library.string_array_init 1 memory
  more_names (x ∷ xs) memory = library.string_array_resize (length (x ∷ xs) + 1) memory

  -- Room for the types of one more name, when there are `size` names.
  unfoldable pub more_types : List (List Text) → ℕ → Memory → Memory
  more_types [] size memory = library.zero_allocate library.sizeof_string_array memory
  more_types (t ∷ ts) size memory = library.reallocate (size * library.sizeof_string_array) memory

  -- The loop that copies an entity's types.
  unfoldable pub copy_types : ℕ → List Text → Memory → List Text × Memory
  copy_types capacity [] memory = ([], memory)
  copy_types capacity (t ∷ ts) memory =
      let (rest, memory') = copy_types capacity ts (library.zero_allocate (length t + 1) memory) in
      ((snprintf capacity t).1 ∷ rest, memory')

  -- After the array for the types of the last name was asked for.
  unfoldable pub store_types : List Text → NamesAndTypes → RmwRet × ℕ × Memory → RmwRet × Listing
  unfolding copy_types
  store_types types l (ret_ok, capacity, memory) =
      let (copied, memory') = copy_types capacity types memory in
      (ret_ok, (record l { types = l.types ++ copied ∷ [] }, memory'))
  store_types types l (_, capacity, memory) = (ret_error, (l, memory))

  -- After the room for the name was asked for.
  unfoldable pub store_name : GraphEntity → NamesAndTypes → RmwRet × ℕ × Memory → RmwRet × Listing
  unfolding store_types more_types
  store_name e l (ret_ok, capacity, memory) =
      let named : NamesAndTypes = record l {
        names = l.names ++ (snprintf capacity e.name).1 ∷ [];
      } in
      let memory' =
        more_types l.types (length named.names) (library.reallocate (length e.name + 1) memory) in
      store_types e.types named (library.string_array_init (length e.types) memory')
  store_name e l (_, capacity, memory) = (ret_error, (l, memory))

  -- An entity's name and types, after those that are there.
  unfoldable pub add_entity : GraphEntity → Listing → RmwRet × Listing
  unfolding store_name more_names
  add_entity e (l, memory) = store_name e l (more_names l.names memory)

  module _ (listed : ℕ → Bool) where
    -- The loops over the graph, for the kinds that are listed.
    unfoldable pub list_entities : List GraphEntity → Listing → RmwRet × Listing
    unfolding and_then already_included
    list_entities [] l = (ret_ok, l)
    list_entities (e ∷ es) l = and_then (list_entities es) (
        if listed e.entity_type && not (already_included e.name l.0.names)
        then add_entity e l
        else (ret_ok, l))

    unfoldable pub list_nodes : List GraphNode → Listing → RmwRet × Listing
    unfolding and_then
    list_nodes [] l = (ret_ok, l)
    list_nodes (n ∷ ns) l = and_then (list_nodes ns) (list_entities n.entities l)

  -- The entities of a kind, of the node that was found.
  unfoldable pub list_kind : ℕ → List GraphEntity → Listing → RmwRet × Listing
  unfolding and_then
  list_kind kind [] l = (ret_ok, l)
  list_kind kind (e ∷ es) l =
      and_then (list_kind kind es) (if kind == e.entity_type then add_entity e l else (ret_ok, l))

  -- The loop that looks for a node. It ends at the first of that name and namespace.
  unfoldable pub list_of_node : ℕ → Text → Text → List GraphNode → Listing → RmwRet × Listing
  list_of_node kind name ns [] l = (ret_ok, l)
  list_of_node kind name ns (n ∷ rest) l =
      let later = list_of_node kind name ns rest l in
      if equal name n.node_name && equal ns n.node_namespace
      then list_kind kind n.entities l
      else later

module _ {Agent Buffer Memory : Type 0} (cdr : CdrLibrary Buffer) (library : NamesLibrary Memory)
    (kinds : EntityKinds) (w : GraphWorld Agent) where
  -- After `rmw_names_and_types_check_zero`.
  unfoldable pub names_and_types_on :
      (Graph → Listing library → RmwRet × Listing library)
      → Handle
      → Listing library
      → RmwRet
      → RmwRet × Listing library
  names_and_types_on list node l ret_ok =
      with_graph cdr (graph_info_of w node) (ret_ok, l) (ret_error, l) (λ nodes. list nodes l)
  names_and_types_on list node l _ = (ret_invalid_argument, l)

  -- The checks and the reading of the graph: the node, whether the allocator is valid, the lists.
  unfoldable pub get_names_and_types :
      (Graph → Listing library → RmwRet × Listing library)
      → Option Handle
      → Bool
      → Listing library
      → RmwRet × Listing library
  unfolding names_and_types_on
  get_names_and_types list none allocator l = (ret_invalid_argument, l)
  get_names_and_types list (some node) allocator l =
      if identifiers_match node.implementation_identifier
      then if allocator
        then names_and_types_on list node l (library.check_zero l.0)
        else (ret_invalid_argument, l)
      else (ret_incorrect_rmw_implementation, l)

  abbrev pub is_topic : ℕ → Bool
  is_topic kind = (kind == kinds.publisher) || (kind == kinds.subscriber)

  abbrev pub is_service : ℕ → Bool
  is_service kind = (kind == kinds.service_server) || (kind == kinds.service_client)

  -- `rmw_get_topic_names_and_types`
  unfoldable pub rmw_get_topic_names_and_types :
      Option Handle → Bool → Listing library → RmwRet × Listing library
  unfolding get_names_and_types list_nodes
  rmw_get_topic_names_and_types = get_names_and_types (list_nodes library is_topic)

  -- `rmw_get_service_names_and_types`
  unfoldable pub rmw_get_service_names_and_types :
      Option Handle → Bool → Listing library → RmwRet × Listing library
  unfolding get_names_and_types list_nodes
  rmw_get_service_names_and_types = get_names_and_types (list_nodes library is_service)

  -- `__rmw_get_entity_names_and_types_by_node`: the kind, the node that asks, the allocator, and
  -- the name and namespace of the node that is asked about.
  unfoldable pub rmw_get_entity_names_and_types_by_node :
      ℕ → Option Handle → Bool → Text → Text → Listing library → RmwRet × Listing library
  unfolding get_names_and_types list_of_node
  rmw_get_entity_names_and_types_by_node kind node allocator node_name node_namespace =
      get_names_and_types (list_of_node library kind node_name node_namespace) node allocator

  -- `rmw_get_publisher_names_and_types_by_node`
  unfoldable pub rmw_get_publisher_names_and_types_by_node :
      Option Handle → Bool → Text → Text → Listing library → RmwRet × Listing library
  rmw_get_publisher_names_and_types_by_node = rmw_get_entity_names_and_types_by_node kinds.publisher

  -- `rmw_get_subscriber_names_and_types_by_node`
  unfoldable pub rmw_get_subscriber_names_and_types_by_node :
      Option Handle → Bool → Text → Text → Listing library → RmwRet × Listing library
  rmw_get_subscriber_names_and_types_by_node =
      rmw_get_entity_names_and_types_by_node kinds.subscriber

  -- `rmw_get_service_names_and_types_by_node`
  unfoldable pub rmw_get_service_names_and_types_by_node :
      Option Handle → Bool → Text → Text → Listing library → RmwRet × Listing library
  rmw_get_service_names_and_types_by_node =
      rmw_get_entity_names_and_types_by_node kinds.service_server

  -- `rmw_get_client_names_and_types_by_node`
  unfoldable pub rmw_get_client_names_and_types_by_node :
      Option Handle → Bool → Text → Text → Listing library → RmwRet × Listing library
  rmw_get_client_names_and_types_by_node =
      rmw_get_entity_names_and_types_by_node kinds.service_client
