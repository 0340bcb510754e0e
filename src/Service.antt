-- ===== src/Service.antt =====
-- Services: `rmw_create_service` and `rmw_destroy_service` of rmw_service.c, and
-- `rmw_uxrce_fini_service_memory` of types.c (rmw_microxrcedds_c/src), in the build without
-- RMW_UXRCE_USE_REFS. A service's `rmw_service` has the address of the service.
pub mod Life
pub mod Destroy
mod Tests
use rmw_microxrcedds.Prelude.{
  ℕ, ◌+◌, refl, Bool, true, false, ◌||◌, not, Option, none, some, List, length, ltb, ◌==◌,
  if◌then◌else◌,
}
use rmw_microxrcedds.Prelude.Words.{increment16}
use rmw_microxrcedds.Pool
use rmw_microxrcedds.Types.{
  Ptr, RmwRet, ret_ok, ret_error, ret_timeout, QosProfile, ServiceMembers, Handle, Service,
}
use rmw_microxrcedds.Identifiers.{is_uxrce_rmw_identifier_valid}
use rmw_microxrcedds.Entity.{Handled, set_entity, with_memory, claim, fini_memory}
use rmw_microxrcedds.Names.{generate_service_types, generate_service_topics}
use rmw_microxrcedds.Xrce.{
  replier_kind, create_replier_bin, request_data, cancel_data, delete_entity, XrceLibrary, Config,
  Context, World, convert_qos_profile, context_of, set_context, ask_creation, buffer_creation,
  ask_destroy,
}
use rmw_microxrcedds.Endpoint.{output_stream, input_stream, refused}

abbrev pub service_handle : Handled Service
service_handle = record {
  get = Service.handle;
  put = λ h d. record d { handle = h };
  get-put = λ h d. refl;
}

module _ {Agent : Type 0} where
  abbrev pub set_service : Ptr → Service → World Agent → World Agent
  set_service s d w = record w { services = set_entity s d w.services }

  -- `rmw_uxrce_fini_service_memory`
  abbrev pub fini_service_memory : Ptr → World Agent → World Agent
  fini_service_memory s w = record w { services = fini_memory service_handle s w.services }

  -- The label `fail` of `rmw_create_service`.
  unfoldable pub fail_service : Ptr → World Agent → Option Ptr × World Agent
  fail_service s w = (none, fini_service_memory s w)

  -- The handle of the new service, before the length of the name is looked at.
  unfoldable pub claim_service : Ptr → World Agent → World Agent
  claim_service s w = record w { services = claim service_handle s w.services }

module _ {Agent : Type 0} (library : XrceLibrary Agent) (config : Config) where
  -- The fields of the new service, up to the type support.
  unfoldable pub describe_service : Ptr → List ℕ → QosProfile → Ptr → World Agent → World Agent
  describe_service node service_name qos s w =
      set_service s
        (record (w.services.at s) {
          service_name = service_name;
          owner_node = node;
          session_timeout = config.publish_reliable_timeout;
          qos = qos;
        })
        w

  -- The id of the new service, and its counter.
  unfoldable pub number_service : Ptr → Ptr → World Agent → World Agent
  number_service node s w =
      let context = context_of w node in
      set_service s
        (record (w.services.at s) {
          service_id = library.object_id context.id_replier replier_kind;
        })
        (set_context (w.nodes.at node).context
          (record context { id_replier = increment16 context.id_replier }) w)

  -- The stream for messages, and the request for data, whose id is kept.
  unfoldable pub start_service : Ptr → QosProfile → Ptr → World Agent → World Agent
  unfolding buffer_creation
  start_service node qos s w =
      let (id, w₁) =
        buffer_creation library node
          (request_data (w.services.at s).service_id
            (input_stream qos.reliability (context_of w node)))
          w in
      set_service s
        (record (w.services.at s) {
          stream_id = output_stream qos.reliability (context_of w node);
          service_data_resquest = id;
        })
        w₁

  -- The result of the creation's session.
  unfoldable pub finish_service :
      Ptr → QosProfile → Ptr → Bool → World Agent → Option Ptr × World Agent
  finish_service node qos s done w =
      if done then (some s, start_service node qos s w) else fail_service s w

  -- The part of `rmw_create_service` that has a type support.
  unfoldable pub open_service :
      Ptr → List ℕ → ServiceMembers → QosProfile → Ptr → World Agent → Option Ptr × World Agent
  open_service node service_name members qos s w =
      let w₁ = number_service node s w in
      let (typed, req_type_name, res_type_name) =
        generate_service_types members config.type_name_max_length in
      let (named, req_topic_name, res_topic_name) =
        generate_service_topics service_name config.topic_name_max_length in
      let (done, w₂) =
        ask_creation library node
          (create_replier_bin (w₁.services.at s).service_id (w₁.nodes.at node).participant_id
            service_name req_type_name res_type_name req_topic_name res_topic_name
            (convert_qos_profile qos))
          w₁ in
      if typed
      then if named then finish_service node qos s done w₂ else fail_service s w₁
      else fail_service s w₁

  -- The type support may have no handle of this middleware (`none`), or one whose data is NULL.
  unfoldable pub service_with_support :
      Ptr
      → List ℕ
      → Option (Option ServiceMembers)
      → QosProfile
      → Ptr
      → World Agent
      → Option Ptr × World Agent
  service_with_support node service_name none qos s w = fail_service s w
  service_with_support node service_name (some none) qos s w =
      fail_service s (set_service s (record (w.services.at s) { members = none }) w)
  service_with_support node service_name (some (some members)) qos s w =
      open_service node service_name members qos s
        (set_service s (record (w.services.at s) { members = some members }) w)

  -- `rmw_create_service` with an item from the pool.
  unfoldable pub build_service :
      Ptr
      → List ℕ
      → Option (Option ServiceMembers)
      → QosProfile
      → Ptr
      → World Agent
      → Option Ptr × World Agent
  build_service node service_name support qos s w =
      let w₁ = claim_service s w in
      if ltb config.topic_name_max_length (length service_name + 1)
      then fail_service s w₁
      else service_with_support node service_name support qos s
          (describe_service node service_name qos s w₁)

  unfoldable pub service_in :
      Ptr
      → List ℕ
      → Option (Option ServiceMembers)
      → QosProfile
      → Option Ptr × Pool.Pool
      → World Agent
      → Option Ptr × World Agent
  service_in node service_name support qos (none, memory) w = (none, w)
  service_in node service_name support qos (some s, memory) w =
      build_service node service_name support qos s
        (record w { services = with_memory memory w.services })

  -- `rmw_create_service` behind its checks of arguments for NULL.
  unfoldable pub create_service :
      Handle
      → List ℕ
      → Option (Option ServiceMembers)
      → QosProfile
      → World Agent
      → Option Ptr × World Agent
  create_service node service_name support qos w =
      if not (is_uxrce_rmw_identifier_valid node.implementation_identifier)
        || (length service_name == 0)
      then (none, w)
      else service_in node.contents service_name support qos (Pool.get w.services.memory) w

  -- The branch of `rmw_destroy_service` for a service that exists. The answer to the request to
  -- cancel is not looked at.
  unfoldable pub delete_service : Ptr → Ptr → World Agent → RmwRet × World Agent
  delete_service node s w =
      let w₁ = (ask_destroy library node (cancel_data (w.services.at s).service_id) w).1 in
      let (done, w₂) = ask_destroy library node (delete_entity (w₁.services.at s).service_id) w₁ in
      (if done then ret_ok else ret_timeout, fini_service_memory s w₂)

  -- `rmw_destroy_service` behind its checks of arguments for NULL.
  unfoldable pub destroy_service : Handle → Ptr → World Agent → RmwRet × World Agent
  destroy_service node s w =
      if refused node (w.services.at s).handle
      then (ret_error, w)
      else delete_service node.contents s w
