-- ===== src/Graph/AllEndpoints.antt =====
-- The loops of rmw_get_topic_endpoint_info.c (rmw_microxrcedds_c/src) describe all matching
-- endpoints.
use rmw_microxrcedds.Prelude.{
  ℕ, ◌≡◌, refl, sym, ap, ◌∙◌, inl, inr, Bool, true, List, [], ◌∷◌, ◌++◌, arith, Bool-cases,
}
use mathlib.Core.List.{append-nil, append_assoc}
use rmw_microxrcedds.Graph.{Text, GraphEntity, GraphNode, Graph}
use rmw_microxrcedds.Graph.Query.{
  filter_by, filter_by-append, Endpoint, endpoints_of, endpoints, matches, matching,
}
use rmw_microxrcedds.Graph.EndpointInfo.{
  EndpointType, EndpointInfo, EndpointLibrary, Progress, next, ◌>>=◌, Infos, add_endpoint,
  add_entities, add_nodes,
}
use rmw_microxrcedds.Graph.Described.{
  Described, typed, Suffices, add_endpoint-Described, bind_next, bind_congr, bind_assoc,
}

module _ {Memory : Type 0} (library : EndpointLibrary Memory) (s : Suffices library) where
  -- The endpoints, one after the other.
  add_all : EndpointType → List Endpoint → Infos library → Progress (Infos library)
  unfolding ◌>>=◌
  add_all type [] x = next x
  add_all type (p ∷ ps) x = add_endpoint library type p.0 p.1 x >>= add_all type ps

  add_all-append :
      (type : EndpointType) (ps qs : List Endpoint) (x : Infos library)
      → add_all type (ps ++ qs) x ≡ add_all type ps x >>= add_all type qs
  unfolding add_all ◌>>=◌
  add_all-append type [] qs x = refl
  add_all-append type (p ∷ ps) qs x =
      bind_congr (add_endpoint library type p.0 p.1 x) (add_all-append type ps qs)
      ∙ sym (bind_assoc (add_endpoint library type p.0 p.1 x) (add_all type ps) (add_all type qs))

  add_all-Described :
      (type : EndpointType) (ps done : List Endpoint) (infos : List EndpointInfo) (m : Memory)
      → Described type infos done
      → typed ps ≡ true
      → (y : Infos library) × (add_all type ps (infos, m) ≡ next y)
        × Described type y.0 (done ++ ps)
  unfolding add_all typed
  add_all-Described type [] done infos m d h = ((infos, m), refl, rw (append-nil done) d)
  add_all-Described type (p ∷ ps) done infos m d h =
      let (x, e, d') =
        add_endpoint-Described library s type p.0 p.1 infos m done d (ground (arith, h)) in
      let (y, f, d'') = add_all-Described type ps (done ++ p ∷ []) x.0 x.1 d' (ground (arith, h)) in
      (
        y,
        bind_next (add_endpoint library type p.0 p.1 (infos, m)) x (add_all type ps) e ∙ f,
        rw⁻¹ (append_assoc done (p ∷ []) ps) d'',
      )

  module _ (kind : ℕ) (type : EndpointType) (topic_name : Text) where
    abbrev found : List Endpoint → List Endpoint
    found = filter_by (λ (p : Endpoint). matches kind topic_name p.1)

    add_entities-all :
        (n : GraphNode) (es : List GraphEntity) (x : Infos library)
        → add_entities library kind type topic_name n es x
          ≡ add_all type (found (endpoints_of n es)) x
    unfolding add_entities add_all filter_by endpoints_of ◌>>=◌
    add_entities-all n [] x = refl
    add_entities-all n (e ∷ es) x = elim (Bool-cases (matches kind topic_name e)) [
      | inl t ↦ rw t (bind_congr (add_endpoint library type n e x) (add_entities-all n es))
      | inr t ↦ rw t (add_entities-all n es x)
    ]

    -- The nested loops add the matching endpoints in the graph's order.
    add_nodes-all :
        (g : Graph) (x : Infos library)
        → add_nodes library kind type topic_name g x ≡ add_all type (matching kind topic_name g) x
    unfolding add_nodes add_all filter_by endpoints
    add_nodes-all [] x = refl
    add_nodes-all (n ∷ ns) x =
        let p : Endpoint → Bool = λ q. matches kind topic_name q.1 in
        let a = add_entities library kind type topic_name n n.entities x in
        bind_congr a (add_nodes-all ns)
        ∙ ap (λ (b : Progress (Infos library)). b >>= add_all type (matching kind topic_name ns))
            (add_entities-all n n.entities x)
        ∙ sym (
            add_all-append type (found (endpoints_of n n.entities)) (matching kind topic_name ns) x)
        ∙ ap (λ (l : List Endpoint). add_all type l x)
            (sym (filter_by-append p (endpoints_of n n.entities) (endpoints ns)))

    -- From an empty array, the loops make one that describes the matching endpoints.
    pub add_nodes-Described :
        (g : Graph) (m : Memory)
        → typed (matching kind topic_name g) ≡ true
        → (y : Infos library) × (add_nodes library kind type topic_name g ([], m) ≡ next y)
          × Described type y.0 (matching kind topic_name g)
    unfolding Described
    add_nodes-Described g m h =
        let (y, e, d) = add_all-Described type (matching kind topic_name g) [] [] m refl h in
        (y, add_nodes-all g ([], m) ∙ e, d)
