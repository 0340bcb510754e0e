-- ===== src/Graph/Listed.antt =====
-- What the queries for names and types list of a row of entities, and how an entity is stored
-- (rmw_topic_names_and_types.c, rmw_service_names_and_types.c and rmw_node_info_and_types.c of
-- rmw_microxrcedds_c/src), when there is memory.
use rmw_microxrcedds.Prelude.{
  ℕ, ◌+◌, ◌-◌, ◌≡◌, refl, ap, ◌∙◌, List, [], ◌∷◌, ◌++◌, map, length, take,
}
use mathlib.Core.List.{Memᴰ}
use rmw_microxrcedds.Types.{RmwRet, ret_ok}
use rmw_microxrcedds.Graph.{Text, GraphEntity, Graph}
use rmw_microxrcedds.Graph.NamesAndTypes.{
  NamesAndTypes, NamesLibrary, Listing, more_names, more_types, copy_types, store_types, store_name,
  add_entity,
}

-- The documented effect of the rcutils library's functions when there is memory for them. An array
-- of `n` texts has the capacity `capacity n`, whatever that is.
pub record Allocates {Memory : Type 0} (library : NamesLibrary Memory) (capacity : ℕ → ℕ)
    : Type 0 where
  pub zero : library.check_zero (record { names = []; types = [] }) ≡ ret_ok
  pub init :
      (n : ℕ) (m : Memory)
      → (m' : Memory) × (library.string_array_init n m ≡ (ret_ok, capacity n, m'))
  pub resize :
      (n : ℕ) (m : Memory)
      → (m' : Memory) × (library.string_array_resize n m ≡ (ret_ok, capacity n, m'))

-- The entities of all nodes, in the graph's order.
unfoldable pub all_entities : Graph → List GraphEntity
all_entities [] = []
all_entities (n ∷ ns) = n.entities ++ all_entities ns

-- An entity of such a kind whose name is none of those that are there.
abbrev pub New : (ℕ → Type 0) → NamesAndTypes → GraphEntity → Type 0
New Kind l e = Kind e.entity_type × ¬ Memᴰ e.name l.names

module _ (capacity : ℕ → ℕ) where
  -- An entity after those that are there. A text loses what is beyond the capacity of its array,
  -- with one byte for the terminating 0.
  abbrev pub with_entity : NamesAndTypes → GraphEntity → NamesAndTypes
  with_entity l e = record {
    names = l.names ++ take (capacity (length l.names + 1) - 1) e.name ∷ [];
    types = l.types ++ map (λ (t : Text). take (capacity (length e.types) - 1) t) e.types ∷ [];
  }

  -- From one list to another over a row of entities: those that are wanted at their turn are added,
  -- in order, and no others.
  pub data Adds (Wanted : NamesAndTypes → GraphEntity → Type 0)
      : List GraphEntity → NamesAndTypes → NamesAndTypes → Type 0 where
    ended : {l : NamesAndTypes} → Adds Wanted [] l l
    added :
        {e : GraphEntity} {es : List GraphEntity} {l end : NamesAndTypes}
        → Wanted l e
        → Adds Wanted es (with_entity l e) end
        → Adds Wanted (e ∷ es) l end
    passed :
        {e : GraphEntity} {es : List GraphEntity} {l end : NamesAndTypes}
        → ¬ Wanted l e
        → Adds Wanted es l end
        → Adds Wanted (e ∷ es) l end

module _ {Memory : Type 0} (library : NamesLibrary Memory) (capacity : ℕ → ℕ)
    (memory : Allocates library capacity) where
  -- The answer RMW_RET_OK, with such names and types.
  abbrev pub Succeeds : (NamesAndTypes → Type 0) → RmwRet × Listing library → Type 0
  Succeeds P r = (end : NamesAndTypes) × (m : Memory) × (r ≡ (ret_ok, (end, m))) × P end

  copy_types_lem :
      (ts : List Text) (size : ℕ) (m : Memory)
      → (copy_types library size ts m).0 ≡ map (λ (t : Text). take (size - 1) t) ts
  unfolding copy_types
  copy_types_lem [] size m = refl
  copy_types_lem (t ∷ ts) size m =
      ap (λ (rest : List Text). take (size - 1) t ∷ rest)
        (copy_types_lem ts size (library.zero_allocate (length t + 1) m))

  store_types_lem :
      (ts : List Text) (l : NamesAndTypes) (m : Memory)
      → (m' : Memory) × (store_types library ts l (library.string_array_init (length ts) m) ≡ (
        ret_ok,
        (
          record l {
            types = l.types ++ map (λ (t : Text). take (capacity (length ts) - 1) t) ts ∷ [];
          },
          m',
        ),
      ))
  unfolding store_types
  store_types_lem ts l m =
      let n = length ts in
      let (m', e) = memory.init n m in
      let end = (copy_types library (capacity n) ts m').1 in
      (
        end,
        ap (λ (r : RmwRet × ℕ × Memory). store_types library ts l r) e
            ∙ ap
                (λ (copied : List Text).
                  (ret_ok, (record l { types = l.types ++ copied ∷ [] }, end)))
                (copy_types_lem ts (capacity n) m'),
      )

  more_names_lem :
      (names : List Text) (m : Memory)
      → (m' : Memory) × (more_names library names m ≡ (ret_ok, capacity (length names + 1), m'))
  unfolding more_names
  more_names_lem [] m = memory.init 1 m
  more_names_lem (x ∷ xs) m = memory.resize (length (x ∷ xs) + 1) m

  pub add_entity_lem :
      (e : GraphEntity) (l : NamesAndTypes) (m : Memory)
      → (m' : Memory) × (add_entity library e (l, m) ≡ (ret_ok, (with_entity capacity l e, m')))
  unfolding add_entity store_name
  add_entity_lem e l m =
      let (m₁, f) = more_names_lem l.names m in
      let named : NamesAndTypes = record l {
        names = l.names ++ take (capacity (length l.names + 1) - 1) e.name ∷ [];
      } in
      let m₂ =
        more_types library l.types (length named.names)
          (library.reallocate (length e.name + 1) m₁) in
      let (m₃, g) = store_types_lem e.types named m₂ in
      (m₃, ap (λ (r : RmwRet × ℕ × Memory). store_name library e l r) f ∙ g)
