-- ===== src/Graph/Fill.antt =====
-- `rmw_graph_fill_data_from_buffer` of rmw_graph.c (rmw_microxrcedds_c/src) reads just what its
-- buffer holds.
use rmw_microxrcedds.Prelude.{
  ℕ, ◌≡◌, ◌↔◌, ◌⊎◌, refl, ap, ◌∙◌, Bool, true, [], length, arith, Bool-cases, inl, inr,
  if◌then◌else◌,
}
use mathlib.Core.Path.{subst}
use rmw_microxrcedds.Types.{GraphInfo, RmwRet, ret_ok, ret_error}
use rmw_microxrcedds.Graph.{
  GraphEntity, GraphNode, Graph, CdrLibrary, Reader, blank_entity, blank_node, fill_text,
  fill_sequence, fill_entity, fill_node, rmw_graph_fill_data_from_buffer,
}
use rmw_microxrcedds.Graph.Grammar.{
  Grammar, TextAt, SequenceAt, EntityAt, NodeAt, GraphAt, Reads, check_retval-Reads, pure-Reads,
  bind-Reads, items-Reads,
}

module _ {Buffer : Type 0} (cdr : CdrLibrary Buffer) where
  text-Reads : Reads (fill_text cdr) (TextAt cdr)
  unfolding fill_text
  text-Reads = check_retval-Reads (cdr.deserialize_string 256)

  sequence-Reads :
      {A : Type 0} {P : Grammar Buffer A} {p : Reader Buffer A} (blank : A)
      → Reads p P
      → Reads (fill_sequence cdr blank p) (SequenceAt cdr P)
  unfolding fill_sequence
  sequence-Reads {P = P} {p = p} blank r =
      let q =
        bind-Reads (check_retval-Reads cdr.deserialize_uint32_t) (λ n. items-Reads blank r n) in
      record {
        sticky = q.sticky;
        to = λ b items b' e.
            let (n, c, h, (size, stand)) = q.to b items b' e in
            (c, subst (λ (k : ℕ). cdr.deserialize_uint32_t b ≡ (true, k, c)) size h, stand);
        from = λ b items b' (c, h, stand). q.from b items b' (length items, c, h, (refl, stand));
      }

  entity-Reads : Reads (fill_entity cdr) (EntityAt cdr)
  unfolding fill_entity
  entity-Reads =
      let q = bind-Reads (check_retval-Reads cdr.deserialize_uint8_t) (λ kind.
        bind-Reads text-Reads (λ name.
          bind-Reads (sequence-Reads [] text-Reads)
            (λ types. pure-Reads (record { entity_type = kind; name = name; types = types })))) in
      record {
        sticky = q.sticky;
        to = λ b e b' h.
            let (kind, c, hk, (name, d, hn, (types, f, ht, he))) = q.to b e b' h in
            subst (λ (t : GraphEntity × Buffer). EntityAt cdr b t.0 t.1) he (c, d, hk, hn, ht);
        from = λ b e b' (c, d, hk, hn, ht).
            q.from b e b' (e.entity_type, c, hk, (e.name, d, hn, (e.types, b', ht, refl)));
      }

  node-Reads : Reads (fill_node cdr) (NodeAt cdr)
  unfolding fill_node
  node-Reads =
      let q = bind-Reads text-Reads (λ ns. bind-Reads text-Reads (λ name.
        bind-Reads (sequence-Reads blank_entity entity-Reads)
          (λ es. pure-Reads (record { node_namespace = ns; node_name = name; entities = es })))) in
      record {
        sticky = q.sticky;
        to = λ b n b' h.
            let (ns, c, hs, (name, d, hn, (es, f, he, hp))) = q.to b n b' h in
            subst (λ (t : GraphNode × Buffer). NodeAt cdr b t.0 t.1) hp (c, d, hs, hn, he);
        from = λ b n b' (c, d, hs, hn, he).
            q.from b n b'
              (n.node_namespace, c, hs, (n.node_name, d, hn, (n.entities, b', he, refl)));
      }

  answer-cases :
      (g : GraphInfo)
      → ((rmw_graph_fill_data_from_buffer cdr g).0 ≡ ret_ok)
        ⊎ ((rmw_graph_fill_data_from_buffer cdr g).0 ≡ ret_error)
  unfolding rmw_graph_fill_data_from_buffer
  answer-cases g =
      let b = cdr.init_buffer g.micro_buffer g.micro_buffer_length in
      elim (Bool-cases (fill_sequence cdr blank_node (fill_node cdr) true b).1) [
        | inl ok ↦ rw ok (inl refl)
        | inr failed ↦ rw failed (inr refl)
      ]

  -- `rmw_graph_fill_data_from_buffer` answers RMW_RET_OK with a graph exactly when the buffer of
  -- the graph starts with its serialization: the number of its nodes, then for each node its
  -- namespace, its name, the number of its entities and the entities, each by its type, its name,
  -- the number of its types and the types.
  pub rmw_graph_fill_data_from_buffer-reads :
      (g : GraphInfo) (nodes : Graph)
      → (rmw_graph_fill_data_from_buffer cdr g ≡ (ret_ok, nodes)) ↔ GraphAt cdr g nodes
  unfolding rmw_graph_fill_data_from_buffer
  rmw_graph_fill_data_from_buffer-reads g nodes =
      let q = sequence-Reads blank_node node-Reads in
      let b = cdr.init_buffer g.micro_buffer g.micro_buffer_length in
      let r = fill_sequence cdr blank_node (fill_node cdr) true b in
      (
        λ e. elim (Bool-cases r.1) [
          | inl ok ↦
              let read : r ≡ (nodes, true, r.2) =
                ap (λ (g : Graph). (g, r.1, r.2)) (ap (λ (t : RmwRet × Graph). t.1) e)
                ∙ ap (λ (t : Bool). (nodes, t, r.2)) ok in
              (r.2, q.to b nodes r.2 read)
          | inr failed ↦
              let ended : (if r.1 then ret_ok else ret_error) ≡ ret_ok =
                ap (λ (t : RmwRet × Graph). t.0) e in
              absurd (ground (arith, failed, ended))
        ],
        λ (b', h).
            ap (λ (t : Graph × Bool × Buffer). (if t.1 then ret_ok else ret_error, t.0))
              (q.from b nodes b' h),
      )

  -- The buffer holds a graph, or it holds none and the function fails.
  pub fill-cases :
      (g : GraphInfo)
      → ((nodes : Graph) × GraphAt cdr g nodes
          × (rmw_graph_fill_data_from_buffer cdr g ≡ (ret_ok, nodes)))
        ⊎ (((nodes : Graph) → ¬ GraphAt cdr g nodes)
            × ((rmw_graph_fill_data_from_buffer cdr g).0 ≡ ret_error))
  fill-cases g = elim (answer-cases g) [
    | inl ok ↦
        let nodes = (rmw_graph_fill_data_from_buffer cdr g).1 in
        let read = ap (λ (t : RmwRet). (t, nodes)) ok in
        inl (nodes, (rmw_graph_fill_data_from_buffer-reads g nodes).0 read, read)
    | inr failed ↦ inr (
      λ nodes at.
          let ok =
            ap (λ (t : RmwRet × Graph). t.0)
              ((rmw_graph_fill_data_from_buffer-reads g nodes).1 at) in
          absurd (ground (arith, failed, ok)),
      failed,
    )
  ]
