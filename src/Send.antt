-- ===== src/Send.antt =====
-- Sending: `rmw_publish` of rmw_publish.c, `rmw_send_request` of rmw_request.c and
-- `rmw_send_response` of rmw_response.c (rmw_microxrcedds_c/src).
pub mod Publish
mod Tests
use rmw_microxrcedds.Prelude.{
  ℕ, ◌+◌, ◌%◌, ◌^◌, Bool, true, false, not, ◌&&◌, ◌||◌, Option, none, some, ◌==◌, if◌then◌else◌,
}
use rmw_microxrcedds.Prelude.Int.{ℤ}
use rmw_microxrcedds.Types.{
  Ptr, ObjectId, StreamId, StreamType, best_effort_stream, reliable_stream, RmwRet, ret_ok,
  ret_error, ret_incorrect_rmw_implementation, Members, ServiceMembers, Service, Client,
  SampleIdentity, RequestId,
}
use rmw_microxrcedds.Identifiers.{identifiers_match, is_uxrce_rmw_identifier_valid}
use rmw_microxrcedds.SampleId.{from_request_id}
use rmw_microxrcedds.Xrce.{Publisher, World}
use rmw_microxrcedds.Publisher.{set_publisher}

-- The client library and the type supports, on the state `Agent`, which has the buffer that was
-- prepared last: a request's id, 0 if there is no room; the serialization into that buffer, and
-- whether it succeeded; running a session until the messages are confirmed; the callbacks of
-- publishers. UXR_INVALID_REQUEST_ID is 0.
pub record SendLibrary (Agent Message : Type 0) : Type 0 where
  pub get_serialized_size : Option Members → Message → ℕ
  pub cdr_serialize : Option Members → Message → Agent → Bool × Agent
  pub serialize_SampleIdentity : SampleIdentity → Agent → Agent
  pub prepare_output_stream : Ptr → StreamId → ObjectId → ℕ → Agent → ℕ × Agent
  pub prepare_output_stream_fragmented : Ptr → StreamId → ObjectId → ℕ → ℤ → Agent → ℕ × Agent
  pub run_session_until_confirm_delivery : Ptr → ℤ → Agent → Bool × Agent
  pub flash_output_streams : Ptr → Agent → Agent
  pub call_size : Ptr → ℕ → ℕ
  pub call_serialization : Ptr → Agent → Agent

unfoldable pub request_members : Option ServiceMembers → Option Members
request_members none = none
request_members (some m) = some m.request_members

unfoldable pub response_members : Option ServiceMembers → Option Members
response_members none = none
response_members (some m) = some m.response_members

module _ {Agent Message : Type 0} (send : SendLibrary Agent Message) where
  -- The end of each sending: a best-effort stream is flushed, a reliable one runs until the
  -- delivery is confirmed.
  unfoldable pub deliver : Ptr → StreamType → ℤ → Agent → Bool × Agent
  deliver context best_effort_stream timeout agent = (true, send.flash_output_streams context agent)
  deliver context reliable_stream timeout agent =
      send.run_session_until_confirm_delivery context timeout agent

  -- `topic_length`
  unfoldable pub topic_length : Publisher → Message → ℕ
  topic_length d message =
      let length = send.get_serialized_size d.members message in
      if d.cs_cb_size == 0 then length else send.call_size d.cs_cb_size length

  -- `rmw_publish` with a prepared buffer.
  unfoldable pub write_message : Ptr → Publisher → Message → Agent → Bool × Agent
  write_message context d message agent =
      let (written, a₁) = send.cdr_serialize d.members message agent in
      let a₂ =
        if d.cs_cb_serialization == 0
        then a₁
        else send.call_serialization d.cs_cb_serialization a₁ in
      let (delivered, a₃) = deliver context d.stream_id.type d.session_timeout a₂ in
      (written && delivered, a₃)

  -- `rmw_publish` behind its checks: the message in one piece, or in fragments.
  unfoldable pub publish_message : Ptr → Publisher → Message → Agent → Bool × Agent
  publish_message context d message agent =
      let length = topic_length d message in
      let (whole, a₁) =
        send.prepare_output_stream context d.stream_id d.datawriter_id length agent in
      let (fragmented, a₂) =
        send.prepare_output_stream_fragmented context d.stream_id d.datawriter_id length
          d.session_timeout a₁ in
      if not (whole == 0)
      then write_message context d message a₁
      else if not (fragmented == 0)
      then write_message context d message a₂
      else (false, a₂)

  -- `rmw_publish` behind its checks of arguments for NULL.
  unfoldable pub rmw_publish : Ptr → Message → World Agent → RmwRet × World Agent
  rmw_publish p message w =
      let d = w.publishers.at p in
      let (written, agent) = publish_message (w.nodes.at d.owner_node).context d message w.agent in
      if not (is_uxrce_rmw_identifier_valid d.handle.implementation_identifier)
        || (d.handle.contents == 0)
      then (ret_error, w)
      else (if written then ret_ok else ret_error, record w { agent = agent })

  -- `rmw_send_request`, and `sequence_id` if it is written.
  unfoldable pub rmw_send_request : Ptr → Message → World Agent → RmwRet × Option ℕ × World Agent
  rmw_send_request c message w =
      let d = w.clients.at c in
      let context = (w.nodes.at d.owner_node).context in
      let members = request_members d.members in
      let (sequence_id, a₁) =
        send.prepare_output_stream context d.stream_id d.client_id
          (send.get_serialized_size members message) w.agent in
      let a₂ = (send.cdr_serialize members message a₁).1 in
      let a₃ = (deliver context d.stream_id.type d.session_timeout a₂).1 in
      if not (identifiers_match d.handle.implementation_identifier)
      then (ret_incorrect_rmw_implementation, none, w)
      else if sequence_id == 0
      then (ret_error, some sequence_id, record w { agent = a₁ })
      else (ret_ok, some sequence_id, record w { agent = a₃ })

  -- `rmw_send_response`. The length of a sample identity is 24.
  unfoldable pub rmw_send_response : Ptr → RequestId → Message → World Agent → RmwRet × World Agent
  rmw_send_response s request_header message w =
      let d = w.services.at s in
      let context = (w.nodes.at d.owner_node).context in
      let members = response_members d.members in
      let (rc, a₁) =
        send.prepare_output_stream context d.stream_id d.service_id
          ((send.get_serialized_size members message + 24) % 2 ^ 32) w.agent in
      let a₂ = send.serialize_SampleIdentity (from_request_id request_header) a₁ in
      let a₃ = (send.cdr_serialize members message a₂).1 in
      let a₄ = (deliver context d.stream_id.type d.session_timeout a₃).1 in
      if not (identifiers_match d.handle.implementation_identifier)
      then (ret_incorrect_rmw_implementation, w)
      else if rc == 0
      then (ret_error, record w { agent = a₁ })
      else (ret_ok, record w { agent = a₄ })

-- `rmw_uros_set_continous_serialization_callbacks`
unfoldable pub set_continous_serialization_callbacks :
    {Agent : Type 0} → Ptr → Ptr → Ptr → World Agent → World Agent
set_continous_serialization_callbacks p size_cb serialization_cb w =
    set_publisher p
      (record (w.publishers.at p) { cs_cb_size = size_cb; cs_cb_serialization = serialization_cb })
      w
