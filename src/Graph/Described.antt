-- ===== src/Graph/Described.antt =====
-- What rmw_get_topic_endpoint_info.c fills in (rmw_microxrcedds_c/src).
use rmw_microxrcedds.Prelude.{
  ℕ, ◌+◌, suc, ◌≡◌, refl, ap, ◌∙◌, Bool, true, false, ◌&&◌, List, [], ◌∷◌, ◌++◌, length, arith,
}
use rmw_microxrcedds.Types.{RmwRet, ret_ok}
use rmw_microxrcedds.Graph.{Text, GraphEntity, GraphNode}
use rmw_microxrcedds.Graph.Query.{Endpoint}
use rmw_microxrcedds.Graph.EndpointInfo.{
  EndpointType, EndpointInfo, EndpointLibrary, Progress, next, fini, undefined, ◌>>=◌, go_on, Item,
  Infos, set_text, set_first_type, set_kind, fill_endpoint, store, add_first, add_endpoint,
}

-- The information is that of the endpoint: the names of its node and its first type.
pub record Describes (type : EndpointType) (info : EndpointInfo) (p : Endpoint) : Type 0 where
  pub node_name : info.node_name ≡ p.0.node_name
  pub node_namespace : info.node_namespace ≡ p.0.node_namespace
  pub topic_type : (types : List Text) × (p.1.types ≡ info.topic_type ∷ types)
  pub endpoint_type : info.endpoint_type ≡ type

-- The same for two lists, item by item.
unfoldable pub Described : EndpointType → List EndpointInfo → List Endpoint → Type 0
Described type [] [] = true ≡ true
Described type [] (p ∷ ps) = false ≡ true
Described type (i ∷ is) [] = false ≡ true
Described type (i ∷ is) (p ∷ ps) = Describes type i p × Described type is ps

unfoldable pub has_type : List Text → Bool
has_type [] = false
has_type (t ∷ ts) = true

-- Every endpoint has a type.
unfoldable pub typed : List Endpoint → Bool
typed [] = true
typed (p ∷ ps) = has_type p.1.types && typed ps

-- The documented effect of the rmw library's functions when there is memory for them.
pub record Suffices {Memory : Type 0} (library : EndpointLibrary Memory) : Type 0 where
  pub allocator : library.default_allocator ≡ true
  pub zero : library.check_zero [] ≡ ret_ok
  pub init : (m : Memory) → (library.array_init_with_size m).0 ≡ ret_ok
  pub fini : (infos : List EndpointInfo) (m : Memory) → (library.array_fini infos m).0 ≡ ret_ok
  pub name :
      (t : Text) (i : EndpointInfo) (m : Memory)
      → (m' : Memory) × (library.set_node_name t i m ≡ (ret_ok, record i { node_name = t }, m'))
  pub namespace :
      (t : Text) (i : EndpointInfo) (m : Memory)
      → (m' : Memory) × (library.set_node_namespace t i m
          ≡ (ret_ok, record i { node_namespace = t }, m'))
  pub type :
      (t : Text) (i : EndpointInfo) (m : Memory)
      → (m' : Memory) × (library.set_topic_type t i m ≡ (ret_ok, record i { topic_type = t }, m'))
  pub kind :
      (t : EndpointType) (i : EndpointInfo)
      → library.set_endpoint_type t i ≡ (ret_ok, record i { endpoint_type = t })

Described-append :
    (type : EndpointType) (is : List EndpointInfo) (ps : List Endpoint) (i : EndpointInfo)
    (p : Endpoint)
    → Described type is ps
    → Describes type i p
    → Described type (is ++ i ∷ []) (ps ++ p ∷ [])
unfolding Described
Described-append type [] [] i p h d = (d, refl)
Described-append type [] (q ∷ ps) i p h d = absurd (ground (arith, h))
Described-append type (j ∷ is) [] i p h d = absurd (ground (arith, h))
Described-append type (j ∷ is) (q ∷ ps) i p (e, h) d = (e, Described-append type is ps i p h d)

pub Described-length :
    (type : EndpointType) (is : List EndpointInfo) (ps : List Endpoint)
    → Described type is ps
    → length is ≡ length ps
unfolding Described
Described-length type [] [] h = refl
Described-length type [] (q ∷ ps) h = absurd (ground (arith, h))
Described-length type (j ∷ is) [] h = absurd (ground (arith, h))
Described-length type (j ∷ is) (q ∷ ps) (e, h) =
    ap (λ (n : ℕ). suc n) (Described-length type is ps h)

typed-append : (ps qs : List Endpoint) → typed (ps ++ qs) ≡ (typed ps && typed qs)
unfolding typed
typed-append [] qs = refl
typed-append (p ∷ ps) qs = ground (arith, typed-append ps qs)

module _ {S : Type 0} where
  pub bind_next : (a : Progress S) (x : S) (f : S → Progress S) → a ≡ next x → a >>= f ≡ f x
  unfolding ◌>>=◌
  bind_next a x f e = ap (λ (b : Progress S). b >>= f) e

  pub bind_congr :
      (a : Progress S) {f g : S → Progress S} → ((x : S) → f x ≡ g x) → a >>= f ≡ a >>= g
  unfolding ◌>>=◌
  bind_congr (next x) same = same x
  bind_congr (fini x) same = refl
  bind_congr undefined same = refl

  pub bind_assoc : (a : Progress S) (f g : S → Progress S) → a >>= f >>= g ≡ a >>= λ x. f x >>= g
  unfolding ◌>>=◌
  bind_assoc (next x) f g = refl
  bind_assoc (fini x) f g = refl
  bind_assoc undefined f g = refl

module _ {Memory : Type 0} (library : EndpointLibrary Memory) (s : Suffices library) where
  set_text_next :
      (setter : Text → EndpointInfo → Memory → RmwRet × EndpointInfo × Memory) (t : Text)
      (i i' : EndpointInfo) (m m' : Memory)
      → setter t i (library.zero_allocate (length t + 1) m) ≡ (ret_ok, i', m')
      → set_text library setter t (i, m) ≡ next (i', m')
  unfolding set_text go_on
  set_text_next setter t i i' m m' e =
      ap (λ (r : RmwRet × EndpointInfo × Memory). go_on library r.0 (r.1, r.2)) e

  set_first_type_next :
      (ts : List Text) (i : EndpointInfo) (m : Memory)
      → has_type ts ≡ true
      → (t : Text) × (rest : List Text) × (m' : Memory) × (ts ≡ t ∷ rest)
        × (set_first_type library ts (i, m) ≡ next (record i { topic_type = t }, m'))
  unfolding has_type set_first_type
  set_first_type_next [] i m h = absurd (ground (arith, h))
  set_first_type_next (t ∷ rest) i m h =
      let (m', e) = s.type t i (library.zero_allocate (length t + 1) m) in
      (
        t,
        rest,
        m',
        refl,
        set_text_next library.set_topic_type t i (record i { topic_type = t }) m m' e,
      )

  set_kind_next :
      (t : EndpointType) (i : EndpointInfo) (m : Memory)
      → set_kind library t (i, m) ≡ next (record i { endpoint_type = t }, m)
  unfolding set_kind go_on
  set_kind_next t i m = ap (λ (r : RmwRet × EndpointInfo). go_on library r.0 (r.1, m)) (s.kind t i)

  fill_endpoint-Describes :
      (type : EndpointType) (n : GraphNode) (e : GraphEntity) (i : EndpointInfo) (m : Memory)
      → has_type e.types ≡ true
      → (y : Item library) × (fill_endpoint library type n e (i, m) ≡ next y)
        × Describes type y.0 (n, e)
  unfolding fill_endpoint ◌>>=◌
  fill_endpoint-Describes type n e i m h =
      let (m1, e1) = s.name n.node_name i (library.zero_allocate (length n.node_name + 1) m) in
      let i1 : EndpointInfo = record i { node_name = n.node_name } in
      let (m2, e2) =
        s.namespace n.node_namespace i1 (library.zero_allocate (length n.node_namespace + 1) m1) in
      let i2 : EndpointInfo = record i1 { node_namespace = n.node_namespace } in
      let (t, rest, m3, ts, e3) = set_first_type_next e.types i2 m2 h in
      let i3 : EndpointInfo = record i2 { topic_type = t } in
      (
        (record i3 { endpoint_type = type }, m3),
        rw
            (
              set_text_next library.set_node_name n.node_name i i1 m m1 e1,
              set_text_next library.set_node_namespace n.node_namespace i1 i2 m1 m2 e2,
              e3,
            )
            (set_kind_next type i3 m3),
        record {
          node_name = refl;
          node_namespace = refl;
          topic_type = (rest, ts);
          endpoint_type = refl;
        },
      )

  store_next :
      (infos : List EndpointInfo) (a : Progress (Item library)) (y : Item library)
      → a ≡ next y
      → store library infos a ≡ next (infos ++ y.0 ∷ [], y.1)
  unfolding store
  store_next infos a y e = ap (λ (b : Progress (Item library)). store library infos b) e

  add_first_next :
      (type : EndpointType) (n : GraphNode) (e : GraphEntity) (ret : RmwRet) (x : Item library)
      → ret ≡ ret_ok
      → add_first library type n e ret x ≡ store library [] (fill_endpoint library type n e x)
  unfolding add_first
  add_first_next type n e ret x h = ap (λ (r : RmwRet). add_first library type n e r x) h

  pub add_endpoint-Described :
      (type : EndpointType) (n : GraphNode) (e : GraphEntity) (infos : List EndpointInfo)
      (m : Memory) (ps : List Endpoint)
      → Described type infos ps
      → has_type e.types ≡ true
      → (y : Infos library) × (add_endpoint library type n e (infos, m) ≡ next y)
        × Described type y.0 (ps ++ (n, e) ∷ [])
  unfolding add_endpoint
  add_endpoint-Described type n e [] m ps d h =
      let first = library.array_init_with_size m in
      let (y, f, g) = fill_endpoint-Describes type n e first.1 first.2 h in
      (
        (y.0 ∷ [], y.1),
        add_first_next type n e first.0 (first.1, first.2) (s.init m)
            ∙ store_next [] (fill_endpoint library type n e (first.1, first.2)) y f,
        Described-append type [] ps y.0 (n, e) d g,
      )
  add_endpoint-Described type n e (j ∷ infos) m ps d h =
      let item = library.reallocate (length (j ∷ infos) + 1) m in
      let (y, f, g) = fill_endpoint-Describes type n e item.0 item.1 h in
      (
        (j ∷ infos ++ y.0 ∷ [], y.1),
        store_next (j ∷ infos) (fill_endpoint library type n e item) y f,
        Described-append type (j ∷ infos) ps y.0 (n, e) d g,
      )
