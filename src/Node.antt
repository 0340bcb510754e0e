-- ===== src/Node.antt =====
-- Nodes: `create_node`, `rmw_create_node` and `rmw_destroy_node` of rmw_node.c, and
-- `rmw_uxrce_fini_node_memory` of types.c (rmw_microxrcedds_c/src), in the build without
-- RMW_UXRCE_USE_REFS. A node's `rmw_node` has the address of the node.
pub mod Create
pub mod Clear
pub mod Kinds
pub mod Destroy
mod Tests
use rmw_microxrcedds.Prelude.{
  ℕ, ◌+◌, ◌-◌, refl, Bool, true, false, ◌||◌, not, Option, none, some, List, [], ◌∷◌, ◌++◌, length,
  take, ltb, ◌==◌, if◌then◌else◌,
}
use rmw_microxrcedds.Prelude.Words.{increment16}
use rmw_microxrcedds.Pool
use rmw_microxrcedds.Types.{
  Ptr, RmwRet, ret_ok, ret_error, ret_timeout, ret_unsupported, ret_invalid_argument,
  ret_incorrect_rmw_implementation, Handle,
}
use rmw_microxrcedds.Identifiers.{identifiers_match}
use rmw_microxrcedds.Entity.{Handled, no_handle, set_entity, with_memory, claim, free_entity}
use rmw_microxrcedds.Names.{snprintf}
use rmw_microxrcedds.Xrce.{
  participant_kind, create_participant_bin, delete_entity, XrceLibrary, Config, Context, Node,
  World, context_of, set_context, ask_creation, ask_destroy,
}
use rmw_microxrcedds.Publisher.Destroy.{destroy_publisher}
use rmw_microxrcedds.Subscription.Destroy.{destroy_subscription}
use rmw_microxrcedds.Service.{destroy_service}
use rmw_microxrcedds.Client.{destroy_client}

abbrev pub node_handle : Handled Node
node_handle = record {
  get = Node.handle;
  put = λ h d. record d { handle = h };
  get-put = λ h d. refl;
}

-- `rmw_context_t`, as far as nodes use it: `impl` and `actual_domain_id`.
pub record ContextHandle : Type 0 where
  pub impl : Ptr
  pub actual_domain_id : ℕ

unfoldable pub is_error : RmwRet → Bool
is_error ret_error = true
is_error ret_ok = false
is_error ret_timeout = false
is_error ret_unsupported = false
is_error ret_invalid_argument = false
is_error ret_incorrect_rmw_implementation = false

-- "/"
abbrev pub slash : List ℕ
slash = 47 ∷ []

-- `strcmp(namespace_, "/") == 0`
unfoldable pub is_root : List ℕ → Bool
is_root [] = false
is_root (b ∷ []) = b == 47
is_root (b ∷ c ∷ bs) = false

-- `xrce_node_name`
unfoldable pub xrce_node_name : List ℕ → List ℕ → ℕ → List ℕ
xrce_node_name name namespace size =
    if is_root namespace
    then (snprintf size name).1
    else (snprintf size (namespace ++ slash ++ name)).1

module _ {Agent : Type 0} where
  abbrev pub set_node : Ptr → Node → World Agent → World Agent
  set_node n d w = record w { nodes = set_entity n d w.nodes }

  -- `rmw_uxrce_fini_node_memory`
  unfoldable pub fini_node_memory : Ptr → World Agent → World Agent
  fini_node_memory n w =
      let d = w.nodes.at n in
      if not (identifiers_match d.handle.implementation_identifier)
      then w
      else if d.handle.contents == 0
      then set_node n (record d { handle = no_handle }) w
      else record w {
        nodes = free_entity node_handle n (set_entity n (record d { context = 0 }) w.nodes);
      }

  -- The label `fail` of `create_node`.
  unfoldable pub fail_node : Ptr → World Agent → Option Ptr × World Agent
  fail_node n w = (none, fini_node_memory n w)

  -- The context and the handle of the new node.
  unfoldable pub claim_node : Ptr → Ptr → World Agent → World Agent
  claim_node context n w = record w {
    nodes =
        claim node_handle n (set_entity n (record (w.nodes.at n) { context = context }) w.nodes);
  }

  -- A loop of `rmw_destroy_node` over the allocated entities of a kind. It reads the next item
  -- before it destroys an entity, and returns early on RMW_RET_ERROR.
  unfoldable pub destroy_each :
      (World Agent → Ptr → Ptr)
      → (Handle → Ptr → World Agent → RmwRet × World Agent)
      → Ptr
      → List Ptr
      → RmwRet
      → World Agent
      → RmwRet × World Agent
  destroy_each owner destroy n [] ret w = (ret, w)
  destroy_each owner destroy n (x ∷ xs) ret w =
      let (ret', w') = destroy (w.nodes.at n).handle x w in
      let rest' = destroy_each owner destroy n xs ret' w' in
      let rest = destroy_each owner destroy n xs ret w in
      if owner w x == n then if is_error ret' then (ret', w') else rest' else rest

module _ {Agent : Type 0} (library : XrceLibrary Agent) (config : Config) where
  -- The id of the new node's participant, its counter, and the session.
  unfoldable pub ask_participant : List ℕ → List ℕ → ℕ → Ptr → World Agent → Bool × World Agent
  unfolding ask_creation
  ask_participant name namespace domain_id n w =
      let context = context_of w n in
      let id = library.object_id context.id_participant participant_kind in
      ask_creation library n
        (create_participant_bin id domain_id
          (xrce_node_name name namespace config.node_name_max_length))
        (set_node n (record (w.nodes.at n) { participant_id = id })
          (set_context (w.nodes.at n).context
            (record context { id_participant = increment16 context.id_participant }) w))

  -- `create_node` with a name that fits.
  unfoldable pub place_node : List ℕ → List ℕ → ℕ → Ptr → World Agent → Option Ptr × World Agent
  place_node name namespace domain_id n w =
      let w₁ = set_node n (record (w.nodes.at n) { node_name = name }) w in
      let (done, w₂) =
        ask_participant name namespace domain_id n
          (set_node n (record (w₁.nodes.at n) { node_namespace = namespace }) w₁) in
      if ltb config.node_name_max_length (length namespace + 1)
      then fail_node n w₁
      else if done
      then (some n, w₂)
      else (none, fini_node_memory n w₂)

  unfoldable pub node_in :
      List ℕ → List ℕ → ℕ → Ptr → Option Ptr × Pool.Pool → World Agent → Option Ptr × World Agent
  node_in name namespace domain_id context (none, memory) w = (none, w)
  node_in name namespace domain_id context (some n, memory) w =
      let w₁ = claim_node context n (record w { nodes = with_memory memory w.nodes }) in
      if ltb config.node_name_max_length (length name + 1)
      then fail_node n w₁
      else place_node name namespace domain_id n w₁

  -- `create_node` behind its check of the context for NULL.
  unfoldable pub create_node : List ℕ → List ℕ → ℕ → Ptr → World Agent → Option Ptr × World Agent
  create_node name namespace domain_id context w =
      node_in name namespace domain_id context (Pool.get w.nodes.memory) w

  -- `rmw_create_node` behind its checks of arguments for NULL.
  unfoldable pub rmw_create_node :
      ContextHandle → List ℕ → List ℕ → World Agent → Option Ptr × World Agent
  rmw_create_node context name namespace w =
      if (length name == 0) || (length namespace == 0)
      then (none, w)
      else create_node name namespace context.actual_domain_id context.impl w

  unfoldable pub destroy_publishers : Ptr → RmwRet → World Agent → RmwRet × World Agent
  destroy_publishers n ret w =
      destroy_each (λ w x. (w.publishers.at x).owner_node) (destroy_publisher library config) n
        w.publishers.memory.allocated ret w

  unfoldable pub destroy_subscriptions : Ptr → RmwRet → World Agent → RmwRet × World Agent
  destroy_subscriptions n ret w =
      destroy_each (λ w x. (w.subscriptions.at x).owner_node) (destroy_subscription library config)
        n w.subscriptions.memory.allocated ret w

  unfoldable pub destroy_services : Ptr → RmwRet → World Agent → RmwRet × World Agent
  destroy_services n ret w =
      destroy_each (λ w x. (w.services.at x).owner_node) (destroy_service library config) n
        w.services.memory.allocated ret w

  unfoldable pub destroy_clients : Ptr → RmwRet → World Agent → RmwRet × World Agent
  destroy_clients n ret w =
      destroy_each (λ w x. (w.clients.at x).owner_node) (destroy_client library config) n
        w.clients.memory.allocated ret w

  -- `rmw_destroy_node` after its loops.
  unfoldable pub delete_node : Ptr → RmwRet → World Agent → RmwRet × World Agent
  delete_node n ret w =
      let (done, w₁) = ask_destroy library n (delete_entity (w.nodes.at n).participant_id) w in
      (if done then ret else ret_timeout, fini_node_memory n w₁)

  -- The four loops, and the return where one of them met RMW_RET_ERROR.
  unfoldable pub empty_node : Ptr → World Agent → RmwRet × World Agent
  empty_node n w =
      let (r₁, w₁) = destroy_publishers n ret_ok w in
      let (r₂, w₂) = destroy_subscriptions n r₁ w₁ in
      let (r₃, w₃) = destroy_services n r₂ w₂ in
      let (r₄, w₄) = destroy_clients n r₃ w₃ in
      if is_error r₁
      then (r₁, w₁)
      else if is_error r₂
      then (r₂, w₂)
      else if is_error r₃
      then (r₃, w₃)
      else (r₄, w₄)

  -- `rmw_destroy_node` behind its check of the argument for NULL.
  unfoldable pub rmw_destroy_node : Ptr → World Agent → RmwRet × World Agent
  rmw_destroy_node n w =
      let handle = (w.nodes.at n).handle in
      let (ret, w₁) = empty_node n w in
      if not (identifiers_match handle.implementation_identifier)
      then (ret_error, w)
      else if handle.contents == 0
      then (ret_error, w)
      else if is_error ret
      then (ret, w₁)
      else delete_node n ret w₁
