-- ===== src/Send/Tests.antt =====
-- The theorem on publishing, at the publisher of a busy node.
use rmw_microxrcedds.Prelude.{ℕ, ◌+◌, ◌≡◌, ◌↔◌, refl, true}
use rmw_microxrcedds.Types.{ret_ok}
use rmw_microxrcedds.Identifiers.{is_uxrce_rmw_identifier_valid, rmw_get_implementation_identifier}
use rmw_microxrcedds.Entity.Claim.{IsHandle}
use rmw_microxrcedds.Samples.Network.{busy}
use rmw_microxrcedds.Send.{SendLibrary, rmw_publish}
use rmw_microxrcedds.Send.Publish.{Sent, rmw_publish_iff}

-- Everything succeeds; the messages are numbers, and the state counts the buffers.
abbrev send : SendLibrary ℕ ℕ
send = record {
  get_serialized_size = λ members message. message;
  cdr_serialize = λ members message agent. (true, agent);
  serialize_SampleIdentity = λ s agent. agent;
  prepare_output_stream = λ context stream id length agent. (1, agent + 1);
  prepare_output_stream_fragmented = λ context stream id length timeout agent. (1, agent + 1);
  run_session_until_confirm_delivery = λ context timeout agent. (true, agent);
  flash_output_streams = λ context agent. agent;
  call_size = λ callback length. length;
  call_serialization = λ callback agent. agent;
}

published-IsHandle : IsHandle (busy.publishers.at 41).handle
unfolding is_uxrce_rmw_identifier_valid rmw_get_implementation_identifier
published-IsHandle = record { valid = refl; set = refl }

rmw_publish_iff_example :
    let (ret, end) = rmw_publish send 41 8 busy in
    (ret ≡ ret_ok) ↔ Sent send 10 (busy.publishers.at 41) 8 busy.agent end.agent
rmw_publish_iff_example = rmw_publish_iff send 41 8 busy published-IsHandle
