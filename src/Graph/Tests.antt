-- ===== src/Graph/Tests.antt =====
-- The theorems on the graph, at the graph of a node with a publisher and a subscription.
use rmw_microxrcedds.Prelude.{
  ℕ, ◌+◌, ◌≡◌, ◌↔◌, refl, sym, ap, ◌∙◌, Bool, true, false, some, List, [], ◌∷◌, take, drop, ltb,
}
use mathlib.Core.Path.{subst}
use rmw_microxrcedds.Types.{GraphInfo, RmwRet, ret_ok, ret_error}
use rmw_microxrcedds.Samples.{no_id}
use rmw_microxrcedds.Samples.Network.{busy, node}
use rmw_microxrcedds.Identifiers.{identifiers_match}
use rmw_microxrcedds.Graph.{
  Text, GraphEntity, Graph, CdrLibrary, ◌>>=◌, check_retval, fill_items, fill_text, fill_sequence,
  fill_entity, fill_node, rmw_graph_fill_data_from_buffer,
}
use rmw_microxrcedds.Graph.Grammar.{GraphAt}
use rmw_microxrcedds.Graph.Fill.{rmw_graph_fill_data_from_buffer-reads}
use rmw_microxrcedds.Graph.Query.{
  EntityKinds, GraphWorld, matching, Answers, equal, filter_by, endpoints, endpoints_of,
}
use rmw_microxrcedds.Graph.Count.{
  Counted, rmw_count_publishers, rmw_count_subscribers, rmw_count-Answers,
}
use rmw_microxrcedds.Graph.EndpointInfo.{EndpointInfo, EndpointLibrary, endpoint_invalid}
use rmw_microxrcedds.Graph.Described.{typed, has_type, Suffices}
use rmw_microxrcedds.Graph.Matched.{
  Agree, rmw_publisher_count_matched_subscriptions, rmw_publisher_count_matched_subscriptions-Agree,
}
use rmw_microxrcedds.Graph.NodeNames.{
  StringArrayLibrary, ArraysSuffice, Cut, no_names, rmw_get_node_names, rmw_get_node_names-Cut,
}
use rmw_microxrcedds.Graph.NamesAndTypes.{
  NamesLibrary, rmw_get_topic_names_and_types, rmw_get_service_names_and_types,
}
use rmw_microxrcedds.Graph.Listed.{Allocates, New, all_entities}
use rmw_microxrcedds.Graph.ListedNames.{
  ListsOf, IsTopic, IsService, nothing, rmw_get_names_and_types-ListsOf,
}

-- The first number of a buffer.
abbrev get_number : List ℕ → Bool × ℕ × List ℕ
get_number [] = (false, 0, [])
get_number (x ∷ xs) = (true, x, xs)

-- A number of bytes, and the bytes.
abbrev get_text : ℕ → List ℕ → Bool × Text × List ℕ
get_text size [] = (false, [], [])
get_text size (n ∷ rest) = (ltb n size, take n rest, drop n rest)

-- A library on buffers in which each number takes one place.
abbrev cdr : CdrLibrary (List ℕ)
cdr = record {
  init_buffer = λ bytes length. take length bytes;
  deserialize_uint32_t = get_number;
  deserialize_uint8_t = get_number;
  deserialize_string = get_text;
}

-- Node "ab" in "/" with a publisher and a subscription on "t", of type "T".
abbrev bytes : List ℕ
bytes = 1 ∷ 1 ∷ 47 ∷ 2 ∷ 97 ∷ 98 ∷ 2 ∷ 0 ∷ 1 ∷ 116 ∷ 1 ∷ 1 ∷ 84 ∷ 1 ∷ 1 ∷ 116 ∷ 1 ∷ 1 ∷ 84 ∷ []

abbrev graph_info : GraphInfo
graph_info = record {
  initialized = true;
  has_changed = true;
  datareader_id = no_id;
  micro_buffer = bytes;
  micro_buffer_length = 19;
}

abbrev kinds : EntityKinds
kinds = record { publisher = 0; subscriber = 1; service_server = 2; service_client = 3 }

abbrev entity : ℕ → GraphEntity
entity kind = record { entity_type = kind; name = 116 ∷ []; types = (84 ∷ []) ∷ [] }

abbrev nodes : Graph
nodes =
    record {
      node_namespace = 47 ∷ [];
      node_name = 97 ∷ 98 ∷ [];
      entities = entity 0 ∷ entity 1 ∷ [];
    }
    ∷ []

abbrev world : GraphWorld ℕ
world = record {
  world = record busy {
    publishers = record {
      memory = busy.publishers.memory;
      at = λ p. record (busy.publishers.at p) { topic_name = 116 ∷ [] };
    };
  };
  graphs = λ context. graph_info;
}

rmw_graph_fill_data_from_buffer-reads_example :
    (rmw_graph_fill_data_from_buffer cdr graph_info ≡ (ret_ok, nodes))
    ↔ GraphAt cdr graph_info nodes
rmw_graph_fill_data_from_buffer-reads_example =
    rmw_graph_fill_data_from_buffer-reads cdr graph_info nodes

fill_nodes : rmw_graph_fill_data_from_buffer cdr graph_info ≡ (ret_ok, nodes)
unfolding rmw_graph_fill_data_from_buffer fill_sequence fill_node fill_entity fill_text fill_items
    ◌>>=◌ check_retval
fill_nodes = refl

nodes_at : GraphAt cdr graph_info nodes
nodes_at = (rmw_graph_fill_data_from_buffer-reads cdr graph_info nodes).0 fill_nodes

node_match : identifiers_match node.implementation_identifier ≡ true
unfolding identifiers_match
node_match = refl

rmw_count-Answers_example :
    Answers cdr graph_info
      (ret_ok, some 0)
      (ret_error, some 0)
      (Counted cdr world 0 (116 ∷ []))
      (rmw_count_publishers cdr world kinds (some node) (some (116 ∷ [])) (some 7))
    × Answers cdr graph_info
        (ret_ok, some 0)
        (ret_error, some 0)
        (Counted cdr world 1 (116 ∷ []))
        (rmw_count_subscribers cdr world kinds (some node) (some (116 ∷ [])) (some 7))
rmw_count-Answers_example = rmw_count-Answers cdr world kinds node (116 ∷ []) 7 node_match

-- A library whose functions succeed; its state counts the calls of the allocator.
abbrev new_info : EndpointInfo
new_info = record {
  node_name = [];
  node_namespace = [];
  topic_type = [];
  endpoint_type = endpoint_invalid;
  endpoint_gid = [];
}

abbrev endpoint_library : EndpointLibrary ℕ
endpoint_library = record {
  check_zero = λ infos. ret_ok;
  array_init_with_size = λ m. (ret_ok, new_info, m + 1);
  reallocate = λ n m. (new_info, m + 1);
  zero_allocate = λ n m. m + 1;
  set_node_name = λ t i m. (ret_ok, record i { node_name = t }, m + 1);
  set_node_namespace = λ t i m. (ret_ok, record i { node_namespace = t }, m + 1);
  set_topic_type = λ t i m. (ret_ok, record i { topic_type = t }, m + 1);
  default_allocator = true;
  array_fini = λ infos m. (ret_ok, m);
  set_endpoint_type = λ t i. (ret_ok, record i { endpoint_type = t });
}

endpoint_library-Suffices : Suffices endpoint_library
endpoint_library-Suffices = record {
  allocator = refl;
  zero = refl;
  init = λ m. refl;
  fini = λ infos m. refl;
  name = λ t i m. (m + 1, refl);
  namespace = λ t i m. (m + 1, refl);
  type = λ t i m. (m + 1, refl);
  kind = λ t i. refl;
}

-- The buffer holds no other graph.
nodes_typed :
    (other : Graph) → GraphAt cdr graph_info other → typed (matching 1 (116 ∷ []) other) ≡ true
unfolding typed has_type filter_by endpoints endpoints_of equal
nodes_typed other at =
    let same : nodes ≡ other =
      ap (λ (t : RmwRet × Graph). t.1)
        (sym fill_nodes ∙ (rmw_graph_fill_data_from_buffer-reads cdr graph_info other).1 at) in
    subst (λ (g : Graph). typed (matching 1 (116 ∷ []) g) ≡ true) same refl

rmw_publisher_count_matched_subscriptions-Agree_example :
    Agree cdr endpoint_library kinds world
      (rmw_publisher_count_matched_subscriptions cdr endpoint_library kinds world 41 0 5)
      (rmw_count_subscribers cdr world kinds (some node) (some (116 ∷ [])) (some 0))
rmw_publisher_count_matched_subscriptions-Agree_example =
    rmw_publisher_count_matched_subscriptions-Agree cdr endpoint_library kinds world
      endpoint_library-Suffices 41 5 node_match nodes_typed

abbrev string_library : StringArrayLibrary ℕ
string_library = record {
  check_zero = λ names. ret_ok;
  string_array_init = λ n m. (ret_ok, m + 1);
  zero_allocate = λ n m. m + 1;
}

string_library-ArraysSuffice : ArraysSuffice string_library
string_library-ArraysSuffice = record { zero = refl; init = λ n m. refl }

rmw_get_node_names-Cut_example :
    Cut nodes (rmw_get_node_names cdr string_library world (some node) no_names 0)
rmw_get_node_names-Cut_example =
    rmw_get_node_names-Cut cdr string_library world string_library-ArraysSuffice node 0 nodes
      node_match refl nodes_at

-- The name of the only node is lost.
lost_name :
    (rmw_get_node_names cdr string_library world (some node) no_names 0).1.node_names ≡ [] ∷ []
lost_name = rmw_get_node_names-Cut_example.1

abbrev names_library : NamesLibrary ℕ
names_library = record {
  check_zero = λ l. ret_ok;
  string_array_init = λ n m. (ret_ok, n, m + 1);
  string_array_resize = λ n m. (ret_ok, n, m + 1);
  zero_allocate = λ n m. m + 1;
  reallocate = λ n m. m + 1;
  sizeof_string_array = 24;
}

names_library-Allocates : Allocates names_library (λ n. n)
names_library-Allocates = record {
  zero = refl;
  init = λ n m. (m + 1, refl);
  resize = λ n m. (m + 1, refl);
}

rmw_get_names_and_types-ListsOf_example :
    ListsOf cdr names_library kinds world
      (λ n. n)
      names_library-Allocates
      (New (IsTopic cdr names_library kinds world))
      (all_entities nodes)
      (rmw_get_topic_names_and_types cdr names_library kinds world (some node) true (nothing, 0))
    × ListsOf cdr names_library kinds world
        (λ n. n)
        names_library-Allocates
        (New (IsService cdr names_library kinds world))
        (all_entities nodes)
        (rmw_get_service_names_and_types cdr names_library kinds world
          (some node)
          true
          (nothing, 0))
rmw_get_names_and_types-ListsOf_example =
    rmw_get_names_and_types-ListsOf cdr names_library kinds world (λ n. n) names_library-Allocates
      node 0 nodes node_match refl nodes_at
