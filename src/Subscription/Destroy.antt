-- ===== src/Subscription/Destroy.antt =====
-- `rmw_destroy_subscription` of rmw_microxrcedds_c/src/rmw_subscription.c, and what it leaves.
use rmw_microxrcedds.Prelude.{◌≡◌, refl, ◌∙◌, inl, inr, true, Bool-cases, if◌then◌else◌}
use rmw_microxrcedds.Types.{Ptr, RmwRet, ret_ok, ret_error, ret_timeout, Handle}
use rmw_microxrcedds.Identifiers.{is_uxrce_rmw_identifier_valid}
use rmw_microxrcedds.Entity.{no_handle}
use rmw_microxrcedds.Entity.Claim.{valid-match, fini-no_handle}
use rmw_microxrcedds.Xrce.{XrceLibrary, Config, World, cancel_data, ask_destroy, ask_delete_both}
use rmw_microxrcedds.Topic.{destroy_topic}
use rmw_microxrcedds.Topic.Memory.{destroy_topic-SameEntities}
use rmw_microxrcedds.Endpoint.{refused}
use rmw_microxrcedds.Endpoint.Handles.{refused-cases, refused-no_handle}
use rmw_microxrcedds.Subscription.{subscription_handle, fini_subscription_memory}

module _ {Agent : Type 0} (library : XrceLibrary Agent) (config : Config) where
  -- The branch of `rmw_destroy_subscription` for a subscription that exists. The answer to the
  -- request to cancel is not looked at.
  unfoldable pub delete_subscription : Ptr → World Agent → RmwRet × World Agent
  delete_subscription s w =
      let node = (w.subscriptions.at s).owner_node in
      let w₁ = (ask_destroy library node (cancel_data (w.subscriptions.at s).datareader_id) w).1 in
      let w₂ = (destroy_topic library config (w₁.subscriptions.at s).topic w₁).1 in
      let d = w₂.subscriptions.at s in
      let (done, w₃) = ask_delete_both library node d.datareader_id d.subscriber_id w₂ in
      (if done then ret_ok else ret_timeout, fini_subscription_memory s w₃)

  -- `rmw_destroy_subscription` behind its checks of arguments for NULL.
  unfoldable pub destroy_subscription : Handle → Ptr → World Agent → RmwRet × World Agent
  destroy_subscription node s w =
      if refused node (w.subscriptions.at s).handle then (ret_error, w) else delete_subscription s w

  delete_subscription-handle :
      (s : Ptr) (w : World Agent)
      → is_uxrce_rmw_identifier_valid (w.subscriptions.at s).handle.implementation_identifier ≡ true
      → ((delete_subscription s w).1.subscriptions.at s).handle ≡ no_handle
  unfolding delete_subscription ask_delete_both ask_destroy
  delete_subscription-handle s w e =
      let w₁ =
        (ask_destroy library (w.subscriptions.at s).owner_node
          (cancel_data (w.subscriptions.at s).datareader_id) w).1 in
      let same = (destroy_topic-SameEntities library config (w.subscriptions.at s).topic w₁).2 in
      fini-no_handle subscription_handle s _ (
        valid-match _ (
          (λ i. is_uxrce_rmw_identifier_valid ((same i).at s).handle.implementation_identifier)
          ∙ e))

  -- After `rmw_destroy_subscription`, whatever it answered, destroying the subscription once more
  -- answers RMW_RET_ERROR and changes nothing.
  pub destroy_subscription_twice :
      (node : Handle) (s : Ptr) (w : World Agent)
      → let v = (destroy_subscription node s w).1 in
        ((destroy_subscription node s v).0 ≡ ret_error) × ((destroy_subscription node s v).1 ≡ v)
  unfolding destroy_subscription
  destroy_subscription_twice node s w =
      elim (Bool-cases (refused node (w.subscriptions.at s).handle)) [
        | inl e ↦ rw (e, e) (refl, refl)
        | inr e ↦
            rw
              (
                e,
                delete_subscription-handle s w (refused-cases node _ e).entity_valid,
                refused-no_handle node,
              )
              (refl, refl)
      ]
