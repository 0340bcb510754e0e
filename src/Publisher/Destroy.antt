-- ===== src/Publisher/Destroy.antt =====
-- `rmw_destroy_publisher` of rmw_microxrcedds_c/src/rmw_publisher.c, and that it destroys once.
use rmw_microxrcedds.Prelude.{◌≡◌, refl, ◌∙◌, inl, inr, true, Bool-cases, if◌then◌else◌}
use rmw_microxrcedds.Types.{Ptr, RmwRet, ret_ok, ret_error, ret_timeout, Handle}
use rmw_microxrcedds.Identifiers.{is_uxrce_rmw_identifier_valid}
use rmw_microxrcedds.Entity.{no_handle}
use rmw_microxrcedds.Entity.Claim.{valid-match, fini-no_handle}
use rmw_microxrcedds.Xrce.{XrceLibrary, Config, World, ask_delete_both}
use rmw_microxrcedds.Topic.{destroy_topic}
use rmw_microxrcedds.Topic.Memory.{destroy_topic-SameEntities}
use rmw_microxrcedds.Endpoint.{refused}
use rmw_microxrcedds.Endpoint.Handles.{refused-cases, refused-no_handle}
use rmw_microxrcedds.Publisher.{publisher_handle, fini_publisher_memory}

module _ {Agent : Type 0} (library : XrceLibrary Agent) (config : Config) where
  -- The branch of `rmw_destroy_publisher` for a publisher that exists.
  unfoldable pub delete_publisher : Ptr → World Agent → RmwRet × World Agent
  delete_publisher p w =
      let w₁ = (destroy_topic library config (w.publishers.at p).topic w).1 in
      let d = w₁.publishers.at p in
      let (done, w₂) =
        ask_delete_both library (w.publishers.at p).owner_node d.datawriter_id d.publisher_id w₁ in
      (if done then ret_ok else ret_timeout, fini_publisher_memory p w₂)

  -- `rmw_destroy_publisher` behind its checks of arguments for NULL.
  unfoldable pub destroy_publisher : Handle → Ptr → World Agent → RmwRet × World Agent
  destroy_publisher node p w =
      if refused node (w.publishers.at p).handle then (ret_error, w) else delete_publisher p w

  delete_publisher-handle :
      (p : Ptr) (w : World Agent)
      → is_uxrce_rmw_identifier_valid (w.publishers.at p).handle.implementation_identifier ≡ true
      → ((delete_publisher p w).1.publishers.at p).handle ≡ no_handle
  unfolding delete_publisher ask_delete_both
  delete_publisher-handle p w e =
      let same = (destroy_topic-SameEntities library config (w.publishers.at p).topic w).1 in
      fini-no_handle publisher_handle p _ (
        valid-match _ (
          (λ i. is_uxrce_rmw_identifier_valid ((same i).at p).handle.implementation_identifier)
          ∙ e))

  -- After `rmw_destroy_publisher`, whatever it answered, destroying the publisher once more answers
  -- RMW_RET_ERROR and changes nothing.
  pub destroy_publisher_twice :
      (node : Handle) (p : Ptr) (w : World Agent)
      → let v = (destroy_publisher node p w).1 in
        ((destroy_publisher node p v).0 ≡ ret_error) × ((destroy_publisher node p v).1 ≡ v)
  unfolding destroy_publisher
  destroy_publisher_twice node p w = elim (Bool-cases (refused node (w.publishers.at p).handle)) [
    | inl e ↦ rw (e, e) (refl, refl)
    | inr e ↦
        rw
          (
            e,
            delete_publisher-handle p w (refused-cases node _ e).entity_valid,
            refused-no_handle node,
          )
          (refl, refl)
  ]
