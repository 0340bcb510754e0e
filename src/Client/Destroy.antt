-- ===== src/Client/Destroy.antt =====
-- The destruction of a client by `rmw_destroy_client` (rmw_microxrcedds_c/src/rmw_client.c).
use rmw_microxrcedds.Prelude.{◌≡◌, refl, inl, inr, true, Bool-cases}
use rmw_microxrcedds.Types.{Ptr, ret_error, Handle}
use rmw_microxrcedds.Identifiers.{is_uxrce_rmw_identifier_valid}
use rmw_microxrcedds.Entity.{no_handle}
use rmw_microxrcedds.Entity.Claim.{fini-no_handle, valid-match}
use rmw_microxrcedds.Xrce.{XrceLibrary, Config, World, ask_destroy}
use rmw_microxrcedds.Endpoint.{refused}
use rmw_microxrcedds.Endpoint.Handles.{refused-cases, refused-no_handle}
use rmw_microxrcedds.Client.{client_handle, delete_client, destroy_client}

module _ {Agent : Type 0} (library : XrceLibrary Agent) (config : Config) where
  delete_client-handle :
      (node c : Ptr) (w : World Agent)
      → is_uxrce_rmw_identifier_valid (w.clients.at c).handle.implementation_identifier ≡ true
      → ((delete_client library config node c w).1.clients.at c).handle ≡ no_handle
  unfolding delete_client ask_destroy
  delete_client-handle node c w e = fini-no_handle client_handle c _ (valid-match _ e)

  -- After `rmw_destroy_client`, whatever it answered, destroying the client once more answers
  -- RMW_RET_ERROR and changes nothing.
  pub destroy_client_twice :
      (node : Handle) (c : Ptr) (w : World Agent)
      → let v = (destroy_client library config node c w).1 in
        ((destroy_client library config node c v).0 ≡ ret_error)
        × ((destroy_client library config node c v).1 ≡ v)
  unfolding destroy_client
  destroy_client_twice node c w = elim (Bool-cases (refused node (w.clients.at c).handle)) [
    | inl e ↦ rw (e, e) (refl, refl)
    | inr e ↦
        rw
          (
            e,
            delete_client-handle node.contents c w (refused-cases node _ e).entity_valid,
            refused-no_handle node,
          )
          (refl, refl)
  ]
