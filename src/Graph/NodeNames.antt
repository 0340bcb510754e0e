-- ===== src/Graph/NodeNames.antt =====
-- The names and namespaces of the nodes: rmw_get_node_names.c (rmw_node_names.c of
-- rmw_microxrcedds_c/src). A text that was not written yet is empty.
use rmw_microxrcedds.Prelude.{
  ℕ, ◌+◌, ◌≡◌, refl, ap, Bool, true, Option, none, some, List, [], ◌∷◌, map, length, take, ◌-◌,
  if◌then◌else◌,
}
use mathlib.Core.Path.{subst⁻¹}
use rmw_microxrcedds.Types.{
  Handle, RmwRet, ret_ok, ret_error, ret_invalid_argument, ret_incorrect_rmw_implementation,
}
use rmw_microxrcedds.Names.{snprintf}
use rmw_microxrcedds.Identifiers.{identifiers_match}
use rmw_microxrcedds.Graph.{Text, GraphNode, Graph, CdrLibrary, blanks}
use rmw_microxrcedds.Graph.Grammar.{GraphAt}
use rmw_microxrcedds.Graph.Query.{GraphWorld, graph_info_of, with_graph, with_graph_held}

-- The functions on arrays of texts, and the allocator, on the state `Memory` of the heap.
pub record StringArrayLibrary (Memory : Type 0) : Type 0 where
  pub check_zero : List Text → RmwRet
  pub string_array_init : ℕ → Memory → RmwRet × Memory
  pub zero_allocate : ℕ → Memory → Memory

-- `node_names` and `node_namespaces`
pub record NameArrays : Type 0 where
  pub node_names : List Text
  pub node_namespaces : List Text

module _ {Memory : Type 0} (library : StringArrayLibrary Memory) where
  -- The loop that copies, for arrays of `size` texts.
  unfoldable pub copy_names : ℕ → List GraphNode → Memory → NameArrays × Memory
  copy_names size [] memory = (record { node_names = []; node_namespaces = [] }, memory)
  copy_names size (n ∷ ns) memory =
      let memory' = library.zero_allocate (length n.node_namespace + 1) memory in
      let memory'' = library.zero_allocate (length n.node_name + 1) memory' in
      let (rest, end) = copy_names size ns memory'' in
      (
        record {
          node_names = (snprintf size n.node_name).1 ∷ rest.node_names;
          node_namespaces = (snprintf size n.node_namespace).1 ∷ rest.node_namespaces;
        },
        end,
      )

  -- After the second array.
  unfoldable pub copy_into : Graph → NameArrays → RmwRet → Memory → RmwRet × NameArrays × Memory
  copy_into nodes names ret_ok memory =
      let (copied, end) = copy_names (length nodes) nodes memory in (ret_ok, copied, end)
  copy_into nodes names _ memory = (ret_error, names, memory)

  -- After the first array.
  unfoldable pub make_second : Graph → NameArrays → RmwRet → Memory → RmwRet × NameArrays × Memory
  unfolding copy_into blanks
  make_second nodes names ret_ok memory =
      let (ret, memory') = library.string_array_init (length nodes) memory in
      copy_into nodes (record names { node_names = blanks [] (length nodes) }) ret memory'
  make_second nodes names _ memory = (ret_error, names, memory)

  -- The two arrays, and the names into them.
  unfoldable pub list_names : Graph → NameArrays → Memory → RmwRet × NameArrays × Memory
  unfolding make_second
  list_names nodes names memory =
      let (ret, memory') = library.string_array_init (length nodes) memory in
      make_second nodes names ret memory'

module _ {Agent Buffer Memory : Type 0} (cdr : CdrLibrary Buffer)
    (library : StringArrayLibrary Memory) (w : GraphWorld Agent) where
  -- From the checks of the arrays on.
  unfoldable pub names_on :
      Handle → NameArrays → Memory → RmwRet → RmwRet → RmwRet × NameArrays × Memory
  unfolding list_names
  names_on node names memory ret_ok ret_ok =
      with_graph cdr (graph_info_of w node) (ret_ok, names, memory) (ret_error, names, memory)
        (λ nodes. list_names library nodes names memory)
  names_on node names memory _ _ = (ret_invalid_argument, names, memory)

  -- `rmw_get_node_names`
  unfoldable pub rmw_get_node_names :
      Option Handle → NameArrays → Memory → RmwRet × NameArrays × Memory
  unfolding names_on
  rmw_get_node_names none names memory = (ret_invalid_argument, names, memory)
  rmw_get_node_names (some node) names memory =
      if identifiers_match node.implementation_identifier
      then names_on node names memory (library.check_zero names.node_names)
          (library.check_zero names.node_namespaces)
      else (ret_incorrect_rmw_implementation, names, memory)

  -- `rmw_get_node_names_with_enclaves`
  unfoldable pub rmw_get_node_names_with_enclaves :
      Option Handle → NameArrays → List Text → Memory → RmwRet × NameArrays × Memory
  rmw_get_node_names_with_enclaves node names enclaves memory = rmw_get_node_names node names memory

-- The documented effect of the rcutils library's functions when there is memory for them.
pub record ArraysSuffice {Memory : Type 0} (library : StringArrayLibrary Memory) : Type 0 where
  pub zero : library.check_zero [] ≡ ret_ok
  pub init : (n : ℕ) (m : Memory) → (library.string_array_init n m).0 ≡ ret_ok

abbrev pub no_names : NameArrays
no_names = record { node_names = []; node_namespaces = [] }

-- The answer RMW_RET_OK, and of each name and namespace the first bytes, one less than there are
-- nodes.
abbrev pub Cut : {Memory : Type 0} → Graph → RmwRet × NameArrays × Memory → Type 0
Cut nodes r =
    let cut : Text → Text = λ text. take (length nodes - 1) text in
    (r.0 ≡ ret_ok)
    × (r.1.node_names ≡ map (λ (n : GraphNode). cut n.node_name) nodes)
    × (r.1.node_namespaces ≡ map (λ (n : GraphNode). cut n.node_namespace) nodes)

module _ {Memory : Type 0} (library : StringArrayLibrary Memory) where
  copy_names_lem :
      (size : ℕ) (ns : List GraphNode) (m : Memory)
      → let names = (copy_names library size ns m).0 in
        (names.node_names ≡ map (λ (n : GraphNode). take (size - 1) n.node_name) ns)
        × (names.node_namespaces ≡ map (λ (n : GraphNode). take (size - 1) n.node_namespace) ns)
  unfolding copy_names
  copy_names_lem size [] m = (refl, refl)
  copy_names_lem size (n ∷ ns) m =
      let m' = library.zero_allocate (length n.node_namespace + 1) m in
      let (a, b) = copy_names_lem size ns (library.zero_allocate (length n.node_name + 1) m') in
      (
        ap (λ (l : List Text). take (size - 1) n.node_name ∷ l) a,
        ap (λ (l : List Text). take (size - 1) n.node_namespace ∷ l) b,
      )

  list_names-Cut :
      (s : ArraysSuffice library) (nodes : Graph) (names : NameArrays) (m : Memory)
      → Cut nodes (list_names library nodes names m)
  unfolding list_names make_second copy_into
  list_names-Cut s nodes names m =
      let first = library.string_array_init (length nodes) m in
      let second = library.string_array_init (length nodes) first.1 in
      let blank : NameArrays = record names { node_names = blanks [] (length nodes) } in
      let (a, b) = copy_names_lem (length nodes) nodes second.1 in
      subst⁻¹ (λ (ret : RmwRet). Cut nodes (make_second library nodes names ret first.1))
        (s.init (length nodes) m)
        (subst⁻¹ (λ (ret : RmwRet). Cut nodes (copy_into library nodes blank ret second.1))
          (s.init (length nodes) first.1) (refl, a, b))

module _ {Agent Buffer Memory : Type 0} (cdr : CdrLibrary Buffer)
    (library : StringArrayLibrary Memory) (w : GraphWorld Agent) where
  -- If there is memory for the arrays and the buffer of the graph of a node of this implementation
  -- holds a graph of n nodes, `rmw_get_node_names` answers RMW_RET_OK, and each name and each
  -- namespace is cut to its first n - 1 bytes.
  pub rmw_get_node_names-Cut :
      (s : ArraysSuffice library) (node : Handle) (m : Memory) (nodes : Graph)
      → identifiers_match node.implementation_identifier ≡ true
      → (graph_info_of w node).initialized ≡ true
      → GraphAt cdr (graph_info_of w node) nodes
      → Cut nodes (rmw_get_node_names cdr library w (some node) no_names m)
  unfolding rmw_get_node_names names_on
  rmw_get_node_names-Cut s node m nodes valid first at =
      let on = names_on cdr library w node no_names m in
      let zero = library.check_zero [] in
      subst⁻¹
        (λ (b : Bool).
          Cut nodes (if b then on zero zero else (ret_incorrect_rmw_implementation, no_names, m)))
        valid
        (subst⁻¹ (λ (ret : RmwRet). Cut nodes (on ret ret)) s.zero
          (subst⁻¹ (λ r. Cut nodes r)
            (with_graph_held cdr (graph_info_of w node) (ret_ok, no_names, m)
              (ret_error, no_names, m) (λ nodes. list_names library nodes no_names m) nodes first
              at)
            (list_names-Cut library s nodes no_names m)))
