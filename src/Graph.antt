-- ===== src/Graph.antt =====
-- The graph of the other nodes, of a build with RMW_UXRCE_GRAPH: `rmw_graph_fill_data_from_buffer`
-- of rmw_graph.c (rmw_microxrcedds_c/src). A text is the list of its bytes without the terminating
-- 0, and allocations of the messages' sequences and texts succeed.
pub mod Grammar
pub mod Fill
pub mod Query
pub mod Count
pub mod Init
pub mod EndpointInfo
pub mod Described
pub mod AllEndpoints
pub mod Matched
pub mod NodeNames
pub mod NamesAndTypes
mod Tests
pub mod Listed
pub mod ListedLoops
pub mod ListedNames
use rmw_microxrcedds.Prelude.{ℕ, zero, suc, Bool, true, false, ◌&&◌, List, [], ◌∷◌, if◌then◌else◌}
use rmw_microxrcedds.Types.{GraphInfo, RmwRet, ret_ok, ret_error}

abbrev pub Text : Type 0
Text = List ℕ

-- `micro_ros_msgs__msg__Entity`
pub record GraphEntity : Type 0 where
  pub entity_type : ℕ
  pub name : Text
  pub types : List Text

-- `micro_ros_msgs__msg__Node`
pub record GraphNode : Type 0 where
  pub node_namespace : Text
  pub node_name : Text
  pub entities : List GraphEntity

-- `micro_ros_msgs__msg__Graph`: its nodes.
abbrev pub Graph : Type 0
Graph = List GraphNode

-- What the CDR library reads from a buffer: whether it could, the value of the variable after that,
-- and the buffer that is left. A text is read into a number of bytes.
pub record CdrLibrary (Buffer : Type 0) : Type 0 where
  pub init_buffer : List ℕ → ℕ → Buffer
  pub deserialize_uint32_t : Buffer → Bool × ℕ × Buffer
  pub deserialize_uint8_t : Buffer → Bool × ℕ × Buffer
  pub deserialize_string : ℕ → Buffer → Bool × Text × Buffer

-- A part of the function: from `ret == RMW_RET_OK` and the buffer to a value and both after it.
abbrev pub Reader : Type 0 → Type 0 → Type 0
Reader Buffer A = Bool → Buffer → A × Bool × Buffer

-- The items of a sequence that nothing was written to.
unfoldable pub blanks : {A : Type 0} → A → ℕ → List A
blanks blank zero = []
blanks blank (suc n) = blank ∷ blanks blank n

module _ {Buffer : Type 0} where
  abbrev pub pure : {A : Type 0} → A → Reader Buffer A
  pure a ret b = (a, ret, b)

  infixl 5 ◌>>=◌
  unfoldable pub ◌>>=◌ : {A B : Type 0} → Reader Buffer A → (A → Reader Buffer B) → Reader Buffer B
  ◌>>=◌ m f ret b = let (a, ret', b') = m ret b in f a ret' b'

  -- UCDR_DESERIALIZE_AND_CHECK_RETVAL: the value is read after an error too, and `ret` keeps the
  -- error.
  unfoldable pub check_retval : {A : Type 0} → (Buffer → Bool × A × Buffer) → Reader Buffer A
  check_retval function_name ret b =
      let (func_ret, a, b') = function_name b in (a, ret && func_ret, b')

  -- A loop over a sequence of blank items: `i < n && (ret == RMW_RET_OK)`.
  unfoldable pub fill_items : {A : Type 0} → A → Reader Buffer A → ℕ → Reader Buffer (List A)
  unfolding ◌>>=◌ blanks
  fill_items blank item zero = pure []
  fill_items blank item (suc n) = λ ret b.
      let filled = (do a ← item; rest ← fill_items blank item n; pure (a ∷ rest)) in
      if ret then filled ret b else (blanks blank (suc n), ret, b)

abbrev pub blank_entity : GraphEntity
blank_entity = record { entity_type = 0; name = []; types = [] }

abbrev pub blank_node : GraphNode
blank_node = record { node_namespace = []; node_name = []; entities = [] }

module _ {Buffer : Type 0} (cdr : CdrLibrary Buffer) where
  -- `temp_string` has 256 bytes.
  unfoldable pub fill_text : Reader Buffer Text
  unfolding check_retval
  fill_text = check_retval (cdr.deserialize_string 256)

  -- A sequence: its size, then its items.
  unfoldable pub fill_sequence : {A : Type 0} → A → Reader Buffer A → Reader Buffer (List A)
  unfolding ◌>>=◌ check_retval fill_items
  fill_sequence blank item = do
    size ← check_retval cdr.deserialize_uint32_t
    fill_items blank item size

  unfoldable pub fill_entity : Reader Buffer GraphEntity
  unfolding ◌>>=◌ check_retval
  fill_entity = do
    kind ← check_retval cdr.deserialize_uint8_t
    name ← fill_text
    types ← fill_sequence [] fill_text
    pure (record { entity_type = kind; name = name; types = types })

  unfoldable pub fill_node : Reader Buffer GraphNode
  unfolding ◌>>=◌
  fill_node = do
    node_namespace ← fill_text
    node_name ← fill_text
    entities ← fill_sequence blank_entity fill_entity
    pure (record { node_namespace = node_namespace; node_name = node_name; entities = entities })

  -- `rmw_graph_fill_data_from_buffer`
  unfoldable pub rmw_graph_fill_data_from_buffer : GraphInfo → RmwRet × Graph
  rmw_graph_fill_data_from_buffer graph_info =
      let buffer = cdr.init_buffer graph_info.micro_buffer graph_info.micro_buffer_length in
      let (nodes, ret, b) = fill_sequence blank_node fill_node true buffer in
      (if ret then ret_ok else ret_error, nodes)
