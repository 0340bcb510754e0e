-- ===== src/Entity/Claim.antt =====
-- An entity that was taken from its pool, from `get_memory` to the end of its creation.
use Prim.Native.String.{String}
use rmw_microxrcedds.Prelude.{
  ◌≡◌, ◌≢◌, refl, sym, ap, ◌∙◌, inl, inr, true, false, Option, none, some, List, ◌∷◌, arith,
  Bool-cases, ==_self, ◌==◌,
}
use rmw_microxrcedds.Pool
use rmw_microxrcedds.Pool.{Pool}
use rmw_microxrcedds.Types.{Ptr, Handle, Entities}
use rmw_microxrcedds.Identifiers.{
  identifiers_match, is_uxrce_rmw_identifier_valid, rmw_get_implementation_identifier,
}
use rmw_microxrcedds.Entity.{
  Handled, no_handle, set_entity, with_memory, free_entity, fini_memory, claim,
}

-- An item that was just taken comes back to where it was.
pub put-take :
    (xs ys : List Ptr) (y : Ptr)
    → Pool.put y (record { allocated = y ∷ xs; free = ys })
      ≡ record { allocated = xs; free = y ∷ ys }
unfolding Pool.put
put-take xs ys y = rw (==_self y) refl

pub new_identifier : identifiers_match (some rmw_get_implementation_identifier) ≡ true
unfolding identifiers_match rmw_get_implementation_identifier
new_identifier = refl

new_valid : is_uxrce_rmw_identifier_valid (some rmw_get_implementation_identifier) ≡ true
unfolding is_uxrce_rmw_identifier_valid rmw_get_implementation_identifier
new_valid = refl

-- What the first check accepts, the second does.
pub valid-match :
    (id : Option String) → is_uxrce_rmw_identifier_valid id ≡ true → identifiers_match id ≡ true
unfolding is_uxrce_rmw_identifier_valid identifiers_match rmw_get_implementation_identifier
valid-match none e = absurd (ground (arith, e))
valid-match (some s) e = e

pub valid_none : is_uxrce_rmw_identifier_valid none ≡ false
unfolding is_uxrce_rmw_identifier_valid
valid_none = refl

-- A handle that the functions on an entity accept.
pub record IsHandle (h : Handle) : Type 0 where
  pub valid : is_uxrce_rmw_identifier_valid h.implementation_identifier ≡ true
  pub set : (h.contents == 0) ≡ false

module _ {A : Type 0} (h : Handled A) where
  fini-memory :
      (x : Ptr) (e : Entities A)
      → identifiers_match (h.get (e.at x)).implementation_identifier ≡ true
      → ((h.get (e.at x)).contents == 0) ≡ false
      → fini_memory h x e ≡ free_entity h x e
  unfolding fini_memory
  fini-memory x e match set = rw (match, set) refl

  -- After the end of an entity with a handle its item is free and its handle is not valid.
  pub fini-IsHandle :
      (x : Ptr) (e : Entities A) → IsHandle (h.get (e.at x)) → fini_memory h x e ≡ free_entity h x e
  fini-IsHandle x e i = fini-memory x e (valid-match _ i.valid) i.set

  -- The handle is gone also where the entity had none.
  pub fini-no_handle :
      (x : Ptr) (e : Entities A)
      → identifiers_match (h.get (e.at x)).implementation_identifier ≡ true
      → h.get ((fini_memory h x e).at x) ≡ no_handle
  unfolding fini_memory free_entity
  fini-no_handle x e match = elim (Bool-cases ((h.get (e.at x)).contents == 0)) [
    | inl z ↦ rw (match, z, ==_self x) (h.get-put no_handle (e.at x))
    | inr z ↦ rw (match, z, ==_self x) (h.get-put no_handle (e.at x))
  ]

  -- What the end of an entity with a handle does to its pool, and to a field that is not its
  -- handle.
  pub record Freed {B : Type 0} (field : A → B) (x : Ptr) (e f : Entities A) : Type 0 where
    pub memory : f.memory ≡ Pool.put x e.memory
    pub others : (y : Ptr) → (y == x) ≡ false → f.at y ≡ e.at y
    pub fields : (y : Ptr) → field (f.at y) ≡ field (e.at y)
    pub handle : h.get (f.at x) ≡ no_handle

  free_entity-Freed :
      {B : Type 0} (field : A → B)
      → ((a : A) → field (h.put no_handle a) ≡ field a)
      → (x : Ptr) (e : Entities A) → Freed field x e (free_entity h x e)
  unfolding free_entity
  free_entity-Freed field keeps x e = record {
    memory = refl;
    others = λ y apart. rw apart refl;
    fields = λ y. elim (Bool-cases (y == x)) [
      | inl z ↦
          let here : y ≡ x = ground (arith, z) in
          rw z (keeps (e.at x) ∙ (λ i. field (e.at (sym here i))))
      | inr z ↦ rw z refl
    ];
    handle = rw (==_self x) (h.get-put no_handle (e.at x));
  }

  pub fini-Freed :
      {B : Type 0} (field : A → B)
      → ((a : A) → field (h.put no_handle a) ≡ field a)
      → (x : Ptr) (e e' : Entities A) → e' ≡ e
      → IsHandle (h.get (e.at x))
      → Freed field x e (fini_memory h x e')
  fini-Freed field keeps x e e' same i =
      rw (same, fini-IsHandle x e i) (free_entity-Freed field keeps x e)

  module _ (e₀ : Entities A) (x : Ptr) (xs : List Ptr) (ne : x ≢ 0) where
    -- The entity has its new handle, and the pool is as after `get_memory`.
    pub record Claimed (e : Entities A) : Type 0 where
      pub memory : e.memory ≡ record { allocated = x ∷ e₀.memory.allocated; free = xs }
      pub contents : (h.get (e.at x)).contents ≡ x
      pub identifier :
          (h.get (e.at x)).implementation_identifier ≡ some rmw_get_implementation_identifier

    pub claim-Claimed :
        Claimed
          (claim h x (with_memory (record { allocated = x ∷ e₀.memory.allocated; free = xs }) e₀))
    unfolding claim
    claim-Claimed = record {
      memory = refl;
      contents = rw (==_self x) (ap Handle.contents (h.get-put _ _));
      identifier = rw (==_self x) (ap Handle.implementation_identifier (h.get-put _ _));
    }

    -- A write to the entity that leaves its handle alone keeps that.
    pub set-Claimed :
        (e : Entities A) (a : A) → Claimed e → h.get a ≡ h.get (e.at x) → Claimed (set_entity x a e)
    set-Claimed e a c same = record {
      memory = c.memory;
      contents = rw (==_self x) (ap Handle.contents same ∙ c.contents);
      identifier = rw (==_self x) (ap Handle.implementation_identifier same ∙ c.identifier);
    }

    -- When its creation fails the pool is as it was before.
    pub fini-Claimed :
        (e : Entities A)
        → Claimed e
        → (fini_memory h x e).memory ≡ record { allocated = e₀.memory.allocated; free = x ∷ xs }
    fini-Claimed e c =
        let match = ap identifiers_match c.identifier ∙ new_identifier in
        let set : ((h.get (e.at x)).contents == 0) ≡ false = ground (arith, c.contents) in
        rw (fini-memory x e match set)
          (unfold free_entity in (ap (Pool.put x) c.memory ∙ put-take e₀.memory.allocated xs x))

    pub valid-Claimed : (e : Entities A) → Claimed e → IsHandle (h.get (e.at x))
    valid-Claimed e c = record {
      valid = rw c.identifier new_valid;
      set = ground (arith, c.contents);
    }
