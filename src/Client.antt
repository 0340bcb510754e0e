-- ===== src/Client.antt =====
-- Clients: `rmw_create_client` and `rmw_destroy_client` of rmw_client.c, and
-- `rmw_uxrce_fini_client_memory` of types.c (rmw_microxrcedds_c/src), in the build without
-- RMW_UXRCE_USE_REFS. A client'c `rmw_client` has the address of the client.
pub mod Life
pub mod Destroy
use rmw_microxrcedds.Prelude.{
  ℕ, ◌+◌, refl, Bool, true, false, ◌||◌, not, Option, none, some, List, length, ltb, ◌==◌,
  if◌then◌else◌,
}
use rmw_microxrcedds.Prelude.Words.{increment16}
use rmw_microxrcedds.Pool
use rmw_microxrcedds.Types.{
  Ptr, RmwRet, ret_ok, ret_error, ret_timeout, QosProfile, ServiceMembers, Handle, Client,
}
use rmw_microxrcedds.Identifiers.{is_uxrce_rmw_identifier_valid}
use rmw_microxrcedds.Entity.{Handled, set_entity, with_memory, claim, fini_memory}
use rmw_microxrcedds.Names.{generate_service_types, generate_service_topics}
use rmw_microxrcedds.Xrce.{
  requester_kind, create_requester_bin, request_data, cancel_data, delete_entity, XrceLibrary,
  Config, Context, World, convert_qos_profile, context_of, set_context, ask_creation,
  buffer_creation, ask_destroy,
}
use rmw_microxrcedds.Endpoint.{output_stream, input_stream, refused}

abbrev pub client_handle : Handled Client
client_handle = record {
  get = Client.handle;
  put = λ h d. record d { handle = h };
  get-put = λ h d. refl;
}

module _ {Agent : Type 0} where
  abbrev pub set_client : Ptr → Client → World Agent → World Agent
  set_client c d w = record w { clients = set_entity c d w.clients }

  -- `rmw_uxrce_fini_client_memory`
  abbrev pub fini_client_memory : Ptr → World Agent → World Agent
  fini_client_memory c w = record w { clients = fini_memory client_handle c w.clients }

  -- The label `fail` of `rmw_create_client`.
  unfoldable pub fail_client : Ptr → World Agent → Option Ptr × World Agent
  fail_client c w = (none, fini_client_memory c w)

  -- The handle of the new client, before the length of the name is looked at.
  unfoldable pub claim_client : Ptr → World Agent → World Agent
  claim_client c w = record w { clients = claim client_handle c w.clients }

module _ {Agent : Type 0} (library : XrceLibrary Agent) (config : Config) where
  -- The fields of the new client, up to the type support.
  unfoldable pub describe_client : Ptr → List ℕ → QosProfile → Ptr → World Agent → World Agent
  describe_client node service_name qos c w =
      set_client c
        (record (w.clients.at c) {
          service_name = service_name;
          owner_node = node;
          session_timeout = config.publish_reliable_timeout;
          qos = qos;
        })
        w

  -- The id of the new client, and its counter.
  unfoldable pub number_client : Ptr → Ptr → World Agent → World Agent
  number_client node c w =
      let context = context_of w node in
      set_client c
        (record (w.clients.at c) {
          client_id = library.object_id context.id_requester requester_kind;
        })
        (set_context (w.nodes.at node).context
          (record context { id_requester = increment16 context.id_requester }) w)

  -- The stream for messages, and the request for data, whose id is kept.
  unfoldable pub start_client : Ptr → QosProfile → Ptr → World Agent → World Agent
  unfolding buffer_creation
  start_client node qos c w =
      let (id, w₁) =
        buffer_creation library node
          (request_data (w.clients.at c).client_id
            (input_stream qos.reliability (context_of w node)))
          w in
      set_client c
        (record (w.clients.at c) {
          stream_id = output_stream qos.reliability (context_of w node);
          client_data_request = id;
        })
        w₁

  -- The result of the creation'c session.
  unfoldable pub finish_client :
      Ptr → QosProfile → Ptr → Bool → World Agent → Option Ptr × World Agent
  finish_client node qos c done w =
      if done then (some c, start_client node qos c w) else fail_client c w

  -- The part of `rmw_create_client` that has a type support.
  unfoldable pub open_client :
      Ptr → List ℕ → ServiceMembers → QosProfile → Ptr → World Agent → Option Ptr × World Agent
  open_client node service_name members qos c w =
      let w₁ = number_client node c w in
      let (typed, req_type_name, res_type_name) =
        generate_service_types members config.type_name_max_length in
      let (named, req_topic_name, res_topic_name) =
        generate_service_topics service_name config.topic_name_max_length in
      let (done, w₂) =
        ask_creation library node
          (create_requester_bin (w₁.clients.at c).client_id (w₁.nodes.at node).participant_id
            service_name req_type_name res_type_name req_topic_name res_topic_name
            (convert_qos_profile qos))
          w₁ in
      if typed
      then if named then finish_client node qos c done w₂ else fail_client c w₁
      else fail_client c w₁

  -- The type support may have no handle of this middleware (`none`), or one whose data is NULL.
  unfoldable pub client_with_support :
      Ptr
      → List ℕ
      → Option (Option ServiceMembers)
      → QosProfile
      → Ptr
      → World Agent
      → Option Ptr × World Agent
  client_with_support node service_name none qos c w = fail_client c w
  client_with_support node service_name (some none) qos c w =
      fail_client c (set_client c (record (w.clients.at c) { members = none }) w)
  client_with_support node service_name (some (some members)) qos c w =
      open_client node service_name members qos c
        (set_client c (record (w.clients.at c) { members = some members }) w)

  -- `rmw_create_client` with an item from the pool.
  unfoldable pub build_client :
      Ptr
      → List ℕ
      → Option (Option ServiceMembers)
      → QosProfile
      → Ptr
      → World Agent
      → Option Ptr × World Agent
  build_client node service_name support qos c w =
      let w₁ = claim_client c w in
      if ltb config.topic_name_max_length (length service_name + 1)
      then fail_client c w₁
      else client_with_support node service_name support qos c
          (describe_client node service_name qos c w₁)

  unfoldable pub client_in :
      Ptr
      → List ℕ
      → Option (Option ServiceMembers)
      → QosProfile
      → Option Ptr × Pool.Pool
      → World Agent
      → Option Ptr × World Agent
  client_in node service_name support qos (none, memory) w = (none, w)
  client_in node service_name support qos (some c, memory) w =
      build_client node service_name support qos c
        (record w { clients = with_memory memory w.clients })

  -- `rmw_create_client` behind its checks of arguments for NULL.
  unfoldable pub create_client :
      Handle
      → List ℕ
      → Option (Option ServiceMembers)
      → QosProfile
      → World Agent
      → Option Ptr × World Agent
  create_client node service_name support qos w =
      if not (is_uxrce_rmw_identifier_valid node.implementation_identifier)
        || (length service_name == 0)
      then (none, w)
      else client_in node.contents service_name support qos (Pool.get w.clients.memory) w

  -- The branch of `rmw_destroy_client` for a client that exists. The answer to the request to
  -- cancel is not looked at.
  unfoldable pub delete_client : Ptr → Ptr → World Agent → RmwRet × World Agent
  delete_client node c w =
      let w₁ = (ask_destroy library node (cancel_data (w.clients.at c).client_id) w).1 in
      let (done, w₂) = ask_destroy library node (delete_entity (w₁.clients.at c).client_id) w₁ in
      (if done then ret_ok else ret_timeout, fini_client_memory c w₂)

  -- `rmw_destroy_client` behind its checks of arguments for NULL.
  unfoldable pub destroy_client : Handle → Ptr → World Agent → RmwRet × World Agent
  destroy_client node c w =
      if refused node (w.clients.at c).handle
      then (ret_error, w)
      else delete_client node.contents c w
