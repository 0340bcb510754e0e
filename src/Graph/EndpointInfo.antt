-- ===== src/Graph/EndpointInfo.antt =====
-- The endpoints of a topic: rmw_get_topic_endpoint_info.c (rmw_microxrcedds_c/src).
use rmw_microxrcedds.Prelude.{
  ℕ, ◌+◌, Bool, ◌==◌, Option, none, some, List, [], ◌∷◌, ◌++◌, length, if◌then◌else◌,
}
use rmw_microxrcedds.Types.{
  Handle, RmwRet, ret_ok, ret_error, ret_invalid_argument, ret_incorrect_rmw_implementation,
}
use rmw_microxrcedds.Identifiers.{identifiers_match}
use rmw_microxrcedds.Graph.{Text, GraphEntity, GraphNode, CdrLibrary}
use rmw_microxrcedds.Graph.Query.{matches, EntityKinds, GraphWorld, graph_info_of, with_graph}

-- `rmw_endpoint_type_t`
pub data EndpointType : Type 0 where
  endpoint_invalid endpoint_publisher endpoint_subscription : EndpointType

-- `rmw_topic_endpoint_info_t`, and `endpoint_gid`, which the code leaves as it was allocated.
pub record EndpointInfo : Type 0 where
  pub node_name : Text
  pub node_namespace : Text
  pub topic_type : Text
  pub endpoint_type : EndpointType
  pub endpoint_gid : List ℕ

-- The rmw library's functions on arrays of these, and the allocator, on the state `Memory` of the
-- heap. `array_init_with_size` makes an array of one item, and `reallocate` one of a larger size
-- that keeps the items: both give the last item. A setter may fail, and it may change the item
-- then.
pub record EndpointLibrary (Memory : Type 0) : Type 0 where
  pub check_zero : List EndpointInfo → RmwRet
  pub array_init_with_size : Memory → RmwRet × EndpointInfo × Memory
  pub reallocate : ℕ → Memory → EndpointInfo × Memory
  pub zero_allocate : ℕ → Memory → Memory
  pub set_node_name : Text → EndpointInfo → Memory → RmwRet × EndpointInfo × Memory
  pub set_node_namespace : Text → EndpointInfo → Memory → RmwRet × EndpointInfo × Memory
  pub set_topic_type : Text → EndpointInfo → Memory → RmwRet × EndpointInfo × Memory
  -- Whether `rcutils_get_default_allocator` gives a valid allocator
  pub default_allocator : Bool
  pub array_fini : List EndpointInfo → Memory → RmwRet × Memory
  pub set_endpoint_type : EndpointType → EndpointInfo → RmwRet × EndpointInfo

-- `__endpoint_kind_to_endpoint_type`
unfoldable pub endpoint_kind_to_endpoint_type : EntityKinds → ℕ → EndpointType
endpoint_kind_to_endpoint_type kinds kind =
    if kind == kinds.publisher
    then endpoint_publisher
    else if kind == kinds.subscriber
    then endpoint_subscription
    else endpoint_invalid

-- A part of the function: it goes on, it jumps to `fini` after an error, or it reads through NULL.
pub data Progress (S : Type 0) : Type 0 where
  next : S → Progress S
  fini : S → Progress S
  undefined : Progress S

infixl 5 ◌>>=◌
unfoldable pub ◌>>=◌ : {S : Type 0} → Progress S → (S → Progress S) → Progress S
next s >>= f = f s
fini s >>= f = fini s
undefined >>= f = undefined

module _ {Memory : Type 0} (library : EndpointLibrary Memory) where
  -- An item that is being filled, and the array with the items before it.
  abbrev pub Item : Type 0
  Item = EndpointInfo × Memory

  abbrev pub Infos : Type 0
  Infos = List EndpointInfo × Memory

  unfoldable pub go_on : RmwRet → Item → Progress Item
  go_on ret_ok s = next s
  go_on _ s = fini s

  -- A text of the item: the allocation for it, and the setter.
  unfoldable pub set_text :
      (Text → EndpointInfo → Memory → RmwRet × EndpointInfo × Memory) → Text → Item → Progress Item
  unfolding go_on
  set_text setter text (info, memory) =
      let (ret, info', memory') =
        setter text info (library.zero_allocate (length text + 1) memory) in
      go_on ret (info', memory')

  -- The first type. Without types, `entity->types.data` is NULL.
  unfoldable pub set_first_type : List Text → Item → Progress Item
  unfolding set_text
  set_first_type [] s = undefined
  set_first_type (type ∷ types) s = set_text library.set_topic_type type s

  unfoldable pub set_kind : EndpointType → Item → Progress Item
  unfolding go_on
  set_kind type (info, memory) =
      let (ret, info') = library.set_endpoint_type type info in go_on ret (info', memory)

  unfoldable pub fill_endpoint : EndpointType → GraphNode → GraphEntity → Item → Progress Item
  unfolding ◌>>=◌ set_text set_first_type set_kind
  fill_endpoint type n e s =
      set_text library.set_node_name n.node_name s
      >>= set_text library.set_node_namespace n.node_namespace
      >>= set_first_type e.types
      >>= set_kind type

  -- The item at the end of the array.
  unfoldable pub store : List EndpointInfo → Progress Item → Progress Infos
  store infos (next (info, memory)) = next (infos ++ info ∷ [], memory)
  store infos (fini (info, memory)) = fini (infos ++ info ∷ [], memory)
  store infos undefined = undefined

  -- The array of one item, if it was made.
  unfoldable pub add_first : EndpointType → GraphNode → GraphEntity → RmwRet → Item → Progress Infos
  unfolding store
  add_first type n e ret_ok s = store [] (fill_endpoint type n e s)
  add_first type n e _ (info, memory) = fini ([], memory)

  -- A matching endpoint: room for it, then its fields.
  unfoldable pub add_endpoint : EndpointType → GraphNode → GraphEntity → Infos → Progress Infos
  unfolding store add_first
  add_endpoint type n e ([], memory) =
      let (ret, info, memory') = library.array_init_with_size memory in
      add_first type n e ret (info, memory')
  add_endpoint type n e (info ∷ infos, memory) =
      store (info ∷ infos)
        (fill_endpoint type n e (library.reallocate (length (info ∷ infos) + 1) memory))

  module _ (kind : ℕ) (type : EndpointType) (topic_name : Text) where
    -- The loops that look for the topic.
    unfoldable pub add_entities : GraphNode → List GraphEntity → Infos → Progress Infos
    unfolding ◌>>=◌
    add_entities n [] s = next s
    add_entities n (e ∷ es) s =
        (if matches kind topic_name e then add_endpoint type n e s else next s)
        >>= add_entities n es

    unfoldable pub add_nodes : List GraphNode → Infos → Progress Infos
    unfolding ◌>>=◌
    add_nodes [] s = next s
    add_nodes (n ∷ ns) s = add_entities n n.entities s >>= add_nodes ns

  -- The answer with the array, or `none` for a behaviour that C leaves undefined.
  unfoldable pub end : Progress Infos → Option (RmwRet × Infos)
  end (next s) = some (ret_ok, s)
  end (fini s) = some (ret_error, s)
  end undefined = none

module _ {Agent Buffer Memory : Type 0} (cdr : CdrLibrary Buffer) (library : EndpointLibrary Memory)
    (kinds : EntityKinds) (w : GraphWorld Agent) where
  -- From `check_zero` on.
  unfoldable pub endpoint_info_on :
      ℕ → Handle → Text → List EndpointInfo → Memory → RmwRet → Option (RmwRet × Infos library)
  unfolding end add_nodes
  endpoint_info_on kind node topic_name infos memory ret_ok =
      with_graph cdr (graph_info_of w node) (some (ret_ok, (infos, memory)))
        (some (ret_error, (infos, memory)))
        (λ nodes. end library (
          add_nodes library kind (endpoint_kind_to_endpoint_type kinds kind) topic_name nodes
            (infos, memory)))
  endpoint_info_on kind node topic_name infos memory _ =
      some (ret_invalid_argument, (infos, memory))

  -- `__rmw_get_endpoint_info_by_topic`: the node, whether the allocator is valid, the topic and the
  -- array.
  unfoldable pub rmw_get_endpoint_info_by_topic :
      ℕ → Option Handle → Bool → Text → List EndpointInfo → Memory → Option (RmwRet × Infos library)
  unfolding endpoint_info_on
  rmw_get_endpoint_info_by_topic kind none allocator topic_name infos memory =
      some (ret_invalid_argument, (infos, memory))
  rmw_get_endpoint_info_by_topic kind (some node) allocator topic_name infos memory =
      if identifiers_match node.implementation_identifier
      then if allocator
        then endpoint_info_on kind node topic_name infos memory (library.check_zero infos)
        else some (ret_invalid_argument, (infos, memory))
      else some (ret_incorrect_rmw_implementation, (infos, memory))

  -- `rmw_get_publishers_info_by_topic`
  unfoldable pub rmw_get_publishers_info_by_topic :
      Option Handle → Bool → Text → List EndpointInfo → Memory → Option (RmwRet × Infos library)
  rmw_get_publishers_info_by_topic = rmw_get_endpoint_info_by_topic kinds.publisher

  -- `rmw_get_subscriptions_info_by_topic`
  unfoldable pub rmw_get_subscriptions_info_by_topic :
      Option Handle → Bool → Text → List EndpointInfo → Memory → Option (RmwRet × Infos library)
  rmw_get_subscriptions_info_by_topic = rmw_get_endpoint_info_by_topic kinds.subscriber
