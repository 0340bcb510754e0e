-- ===== src/Service/Destroy.antt =====
-- The destruction of a service by `rmw_destroy_service` (rmw_microxrcedds_c/src/rmw_service.c).
use rmw_microxrcedds.Prelude.{◌≡◌, refl, inl, inr, true, Bool-cases}
use rmw_microxrcedds.Types.{Ptr, ret_error, Handle}
use rmw_microxrcedds.Identifiers.{is_uxrce_rmw_identifier_valid}
use rmw_microxrcedds.Entity.{no_handle}
use rmw_microxrcedds.Entity.Claim.{fini-no_handle, valid-match}
use rmw_microxrcedds.Xrce.{XrceLibrary, Config, World, ask_destroy}
use rmw_microxrcedds.Endpoint.{refused}
use rmw_microxrcedds.Endpoint.Handles.{refused-cases, refused-no_handle}
use rmw_microxrcedds.Service.{service_handle, delete_service, destroy_service}

module _ {Agent : Type 0} (library : XrceLibrary Agent) (config : Config) where
  delete_service-handle :
      (node s : Ptr) (w : World Agent)
      → is_uxrce_rmw_identifier_valid (w.services.at s).handle.implementation_identifier ≡ true
      → ((delete_service library config node s w).1.services.at s).handle ≡ no_handle
  unfolding delete_service ask_destroy
  delete_service-handle node s w e = fini-no_handle service_handle s _ (valid-match _ e)

  -- After `rmw_destroy_service`, whatever it answered, destroying the service once more answers
  -- RMW_RET_ERROR and changes nothing.
  pub destroy_service_twice :
      (node : Handle) (s : Ptr) (w : World Agent)
      → let v = (destroy_service library config node s w).1 in
        ((destroy_service library config node s v).0 ≡ ret_error)
        × ((destroy_service library config node s v).1 ≡ v)
  unfolding destroy_service
  destroy_service_twice node s w = elim (Bool-cases (refused node (w.services.at s).handle)) [
    | inl e ↦ rw (e, e) (refl, refl)
    | inr e ↦
        rw
          (
            e,
            delete_service-handle node.contents s w (refused-cases node _ e).entity_valid,
            refused-no_handle node,
          )
          (refl, refl)
  ]
