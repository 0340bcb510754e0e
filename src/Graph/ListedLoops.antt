-- ===== src/Graph/ListedLoops.antt =====
-- What the loops of rmw_topic_names_and_types.c, rmw_service_names_and_types.c and
-- rmw_node_info_and_types.c list (rmw_microxrcedds_c/src).
use rmw_microxrcedds.Prelude.{
  ℕ, ◌≡◌, ◌↔◌, refl, sym, ap, ◌∙◌, inl, inr, Bool, true, false, ◌&&◌, not, List, [], ◌∷◌, ◌++◌,
  arith, Bool-cases, ◌==◌, if◌then◌else◌, ==_iff,
}
use mathlib.Core.List.{Memᴰ}
use mathlib.Core.List.Memᴰ
use rmw_microxrcedds.Types.{RmwRet, ret_ok}
use rmw_microxrcedds.Graph.{Text, GraphEntity, Graph}
use rmw_microxrcedds.Graph.Query.{equal, equal-path, equal_self}
use rmw_microxrcedds.Graph.NamesAndTypes.{
  NamesAndTypes, NamesLibrary, and_then, already_included, Listing, add_entity, list_entities,
  list_nodes, list_kind,
}
use rmw_microxrcedds.Graph.Listed.{
  Allocates, all_entities, New, with_entity, Adds, ended, added, passed, Succeeds, add_entity_lem,
}

already_included-Mem : (t : Text) (ts : List Text) → already_included t ts ≡ true → Memᴰ t ts
unfolding already_included
already_included-Mem t [] h = absurd (ground (arith, h))
already_included-Mem t (x ∷ xs) h = elim (Bool-cases (equal x t)) [
  | inl e ↦ Memᴰ.head (sym (equal-path x t e))
  | inr e ↦ Memᴰ.tail (already_included-Mem t xs (ground (arith, h, e)))
]

Mem-already_included : (t : Text) (ts : List Text) → Memᴰ t ts → already_included t ts ≡ true
unfolding already_included
Mem-already_included t [] i = absurd (Memᴰ.not-nil i)
Mem-already_included t (x ∷ xs) i = elim (Memᴰ.cases_cons i) [
  | inl e ↦ rw (e, equal_self x) refl
  | inr i' ↦ ground (arith, Mem-already_included t xs i')
]

-- The test of the loops, for a test of the kind.
pub test-New :
    (listed : ℕ → Bool) (Kind : ℕ → Type 0)
    → ((k : ℕ) → (listed k ≡ true) ↔ Kind k)
    → (e : GraphEntity) (l : NamesAndTypes)
    → ((listed e.entity_type && not (already_included e.name l.names)) ≡ true) ↔ New Kind l e
test-New listed Kind kind e l = (
  λ h. (
    (kind e.entity_type).0 (ground (arith, h)),
    λ i. absurd (ground (arith, h, Mem-already_included e.name l.names i)),
  ),
  λ n. elim (Bool-cases (already_included e.name l.names)) [
    | inl old ↦ absurd (n.1 (already_included-Mem e.name l.names old))
    | inr new ↦ rw (new, (kind e.entity_type).1 n.0) refl
  ],
)

module _ {Memory : Type 0} (library : NamesLibrary Memory) (capacity : ℕ → ℕ)
    (memory : Allocates library capacity) where
  -- One turn of a loop whose test says whether the entity is wanted.
  turn-Adds :
      (Wanted : NamesAndTypes → GraphEntity → Type 0) (test : Bool) (e : GraphEntity)
      (es : List GraphEntity) (l : NamesAndTypes) (m : Memory)
      (rest : Listing library → RmwRet × Listing library)
      → (test ≡ true) ↔ Wanted l e
      → ((l' : NamesAndTypes) (m' : Memory)
          → Succeeds library capacity memory (Adds capacity Wanted es l') (rest (l', m')))
      → Succeeds library capacity memory
          (Adds capacity Wanted (e ∷ es) l)
          (and_then rest (if test then add_entity library e (l, m) else (ret_ok, (l, m))))
  unfolding and_then
  turn-Adds Wanted true e es l m rest wanted later =
      let (m', f) = add_entity_lem library capacity memory e l m in
      let (end, m'', g, adds) = later (with_entity capacity l e) m' in
      (
        end,
        m'',
        ap (λ (r : RmwRet × Listing library). and_then rest r) f ∙ g,
        added (wanted.0 refl) adds,
      )
  turn-Adds Wanted false e es l m rest wanted later =
      let (end, m', g, adds) = later l m in
      (end, m', g, passed (λ w. absurd (ground (arith, wanted.1 w))) adds)

  pub list_entities-Adds :
      (listed : ℕ → Bool) (Kind : ℕ → Type 0)
      → ((k : ℕ) → (listed k ≡ true) ↔ Kind k)
      → (es : List GraphEntity) (l : NamesAndTypes) (m : Memory)
      → Succeeds library capacity memory
          (Adds capacity (New Kind) es l)
          (list_entities library listed es (l, m))
  unfolding list_entities
  list_entities-Adds listed Kind kind [] l m = (l, m, refl, ended)
  list_entities-Adds listed Kind kind (e ∷ es) l m =
      turn-Adds (New Kind) (listed e.entity_type && not (already_included e.name l.names)) e es l m
        (list_entities library listed es) (test-New listed Kind kind e l)
        (list_entities-Adds listed Kind kind es)

  and_then_assoc :
      {S : Type 0} (f g : S → RmwRet × S) (r : RmwRet × S)
      → and_then f (and_then g r) ≡ and_then (λ s. and_then f (g s)) r
  unfolding and_then
  and_then_assoc f g (ret_ok, s) = refl
  and_then_assoc f g (_, s) = refl

  and_then_congr :
      {S : Type 0} {f g : S → RmwRet × S}
      → ((s : S) → f s ≡ g s)
      → (r : RmwRet × S) → and_then f r ≡ and_then g r
  unfolding and_then
  and_then_congr same (ret_ok, s) = same s
  and_then_congr same (_, s) = refl

  module _ (listed : ℕ → Bool) where
    list_entities-append :
        (xs ys : List GraphEntity) (l : Listing library)
        → list_entities library listed (xs ++ ys) l
          ≡ and_then (list_entities library listed ys) (list_entities library listed xs l)
    unfolding list_entities and_then
    list_entities-append [] ys l = refl
    list_entities-append (x ∷ xs) ys l =
        let added =
          if listed x.entity_type && not (already_included x.name l.0.names)
          then add_entity library x l
          else (ret_ok, l) in
        and_then_congr (list_entities-append xs ys) added
        ∙ sym (
            and_then_assoc (list_entities library listed ys) (list_entities library listed xs)
              added)

    -- The nested loops go over the entities of all nodes.
    pub list_nodes-all :
        (ns : Graph) (l : Listing library)
        → list_nodes library listed ns l ≡ list_entities library listed (all_entities ns) l
    unfolding list_nodes all_entities list_entities
    list_nodes-all [] l = refl
    list_nodes-all (n ∷ ns) l =
        and_then_congr (list_nodes-all ns) (list_entities library listed n.entities l)
        ∙ sym (list_entities-append n.entities (all_entities ns) l)

  pub list_kind-Adds :
      (kind : ℕ) (es : List GraphEntity) (l : NamesAndTypes) (m : Memory)
      → Succeeds library capacity memory
          (Adds capacity (λ l e. kind ≡ e.entity_type) es l)
          (list_kind library kind es (l, m))
  unfolding list_kind
  list_kind-Adds kind [] l m = (l, m, refl, ended)
  list_kind-Adds kind (e ∷ es) l m =
      turn-Adds (λ l e. kind ≡ e.entity_type) (kind == e.entity_type) e es l m
        (list_kind library kind es) (==_iff kind e.entity_type) (list_kind-Adds kind es)
