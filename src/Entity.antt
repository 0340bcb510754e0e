-- ===== src/Entity.antt =====
-- What the functions of the different entities share: the entity at an address of a pool, its
-- handle, and the functions `rmw_uxrce_fini_*_memory` of rmw_microxrcedds_c/src/types.c, which
-- differ only in the names of the entities.
pub mod Claim
use rmw_microxrcedds.Prelude.{
  ℕ, ◌≡◌, Bool, true, false, not, Option, none, some, List, ◌==◌, if◌then◌else◌,
}
use rmw_microxrcedds.Pool
use rmw_microxrcedds.Types.{Ptr, Handle, Entities}
use rmw_microxrcedds.Identifiers.{identifiers_match, rmw_get_implementation_identifier}

abbrev pub set_at : {A : Type 0} → Ptr → A → (Ptr → A) → Ptr → A
set_at x v f y = if y == x then v else f y

-- Where an entity keeps its handle.
pub record Handled (A : Type 0) : Type 0 where
  pub get : A → Handle
  pub put : Handle → A → A
  pub get-put : (h : Handle) (a : A) → get (put h a) ≡ h

abbrev pub no_handle : Handle
no_handle = record { implementation_identifier = none; contents = 0 }

module _ {A : Type 0} where
  -- The entity at an address is written.
  abbrev pub set_entity : Ptr → A → Entities A → Entities A
  set_entity x a e = record { memory = e.memory; at = set_at x a e.at }

  -- The pool after `get_memory`, the entities as they were.
  abbrev pub with_memory : Pool.Pool → Entities A → Entities A
  with_memory memory e = record { memory = memory; at = e.at }

  module _ (h : Handled A) where
    -- `put_memory(&pool, &entity->mem); handle->data = NULL;`
    unfoldable pub free_entity : Ptr → Entities A → Entities A
    free_entity x e = record {
      memory = Pool.put x e.memory;
      at = set_at x (h.put no_handle (e.at x)) e.at;
    }

    -- `rmw_uxrce_fini_publisher_memory` and its kin.
    unfoldable pub fini_memory : Ptr → Entities A → Entities A
    unfolding free_entity
    fini_memory x e =
        if not (identifiers_match (h.get (e.at x)).implementation_identifier)
        then e
        else if (h.get (e.at x)).contents == 0
        then set_entity x (h.put no_handle (e.at x)) e
        else free_entity x e

    -- The handle that a new entity gets: it leads back to the entity.
    unfoldable pub claim : Ptr → Entities A → Entities A
    claim x e =
        set_entity x
          (h.put
            (record {
              implementation_identifier = some rmw_get_implementation_identifier;
              contents = x;
            })
            (e.at x))
          e
