-- ===== src/Service/Life.antt =====
-- The creation of a service by `rmw_create_service`
-- (rmw_microxrcedds_c/src/rmw_service.c): its pool, its owner and its handle.
use rmw_microxrcedds.Prelude.{
  ℕ, ◌+◌, ◌≡◌, ◌≢◌, refl, sym, ◌∙◌, ◌⊎◌, inl, inr, Bool, true, false, not, ◌||◌, Option, none, some,
  List, [], ◌∷◌, arith, Bool-cases, ==_self, ◌==◌, has, length, ltb,
}
use rmw_microxrcedds.Pool
use rmw_microxrcedds.Types.{Ptr, QosProfile, ServiceMembers, Handle, Service}
use rmw_microxrcedds.Identifiers.{is_uxrce_rmw_identifier_valid}
use rmw_microxrcedds.Entity.{with_memory}
use rmw_microxrcedds.Entity.Claim.{
  Claimed, claim-Claimed, set-Claimed, fini-Claimed, valid-Claimed, IsHandle,
}
use rmw_microxrcedds.Names.{generate_service_types, generate_service_topics}
use rmw_microxrcedds.Xrce.{
  XrceLibrary, Config, World, ask_creation, buffer_creation, convert_qos_profile,
  create_replier_bin,
}
use rmw_microxrcedds.Service.{
  service_handle, set_service, fail_service, claim_service, describe_service, number_service,
  start_service, finish_service, open_service, service_with_support, build_service, service_in,
  create_service,
}

-- The topics and the entities other than services are the same.
abbrev pub SameButServices : {Agent : Type 0} → World Agent → World Agent → Type 0
SameButServices w v =
    (v.nodes ≡ w.nodes)
    × (v.topics ≡ w.topics)
    × (v.publishers ≡ w.publishers)
    × (v.subscriptions ≡ w.subscriptions)
    × (v.clients ≡ w.clients)

-- Nothing was created, and the pool is as it was.
pub record NotServed {Agent : Type 0} (w : World Agent) (r : Option Ptr × World Agent)
    : Type 0 where
  pub returns : r.0 ≡ none
  pub memory : r.1.services.memory ≡ w.services.memory
  pub rest : SameButServices w r.1

-- The first free service was created: it is the first allocated one, belongs to the node, has the
-- qualities of service, and its handle is accepted.
pub record Served {Agent : Type 0} (node : Ptr) (qos : QosProfile) (w : World Agent)
    (r : Option Ptr × World Agent) : Type 0 where
  pub item : Ptr
  pub items : List Ptr
  pub free : w.services.memory.free ≡ item ∷ items
  pub returns : r.0 ≡ some item
  pub memory :
      r.1.services.memory ≡ record { allocated = item ∷ w.services.memory.allocated; free = items }
  pub owner : (r.1.services.at item).owner_node ≡ node
  pub quality : (r.1.services.at item).qos ≡ qos
  pub accepted : IsHandle (r.1.services.at item).handle
  pub rest : SameButServices w r.1

module _ {Agent : Type 0} (library : XrceLibrary Agent) (config : Config) (node : Ptr)
    (service_name : List ℕ) (qos : QosProfile) (w : World Agent) (s : Ptr) (items : List Ptr)
    (ne : s ≢ 0) (free : w.services.memory.free ≡ s ∷ items) where
  abbrev Own : World Agent → Type 0
  Own v = Claimed service_handle w.services s items ne v.services × SameButServices w v

  set-Own :
      (v : World Agent) (d : Service)
      → Own v
      → d.handle ≡ (v.services.at s).handle
      → Own (set_service s d v)
  set-Own v d (held, rest) e =
      (set-Claimed service_handle w.services s items ne v.services d held e, rest)

  fail-Own : (v : World Agent) → Own v → NotServed w (fail_service s v)
  unfolding fail_service
  fail-Own v (held, rest) = record {
    returns = refl;
    memory =
        fini-Claimed service_handle w.services s items ne v.services held
        ∙ (λ i. record { allocated = w.services.memory.allocated; free = sym free i });
    rest = rest;
  }

  finish-Own :
      (v : World Agent) (done : Bool)
      → Own v
      → (v.services.at s).owner_node ≡ node
      → (v.services.at s).qos ≡ qos
      → NotServed w (finish_service library config node qos s done v)
        ⊎ Served node qos w (finish_service library config node qos s done v)
  unfolding finish_service
  finish-Own v false o owner quality = inl (fail-Own v o)
  finish-Own v true o owner quality =
      let v' = start_service library config node qos s v in
      let o' : Own v' = unfold start_service buffer_creation in (set-Own v _ o refl) in
      inr (record {
        item = s;
        items = items;
        free = free;
        returns = refl;
        memory = (o'.0).memory;
        owner = unfold start_service buffer_creation in (rw (==_self s) owner);
        quality = unfold start_service buffer_creation in (rw (==_self s) quality);
        accepted = valid-Claimed service_handle w.services s items ne v'.services o'.0;
        rest = o'.1;
      })

  open-Own :
      (members : ServiceMembers) (v : World Agent)
      → Own v
      → (v.services.at s).owner_node ≡ node
      → (v.services.at s).qos ≡ qos
      → let r = open_service library config node service_name members qos s v in
        NotServed w r ⊎ Served node qos w r
  unfolding open_service
  open-Own members v o owner quality =
      let w₁ = number_service library config node s v in
      let o₁ : Own w₁ = unfold number_service in (set-Own v _ o refl) in
      let (typed, req_type_name, res_type_name) =
        generate_service_types members config.type_name_max_length in
      let (named, req_topic_name, res_topic_name) =
        generate_service_topics service_name config.topic_name_max_length in
      let asked =
        ask_creation library node
          (create_replier_bin (w₁.services.at s).service_id (w₁.nodes.at node).participant_id
            service_name req_type_name res_type_name req_topic_name res_topic_name
            (convert_qos_profile qos))
          w₁ in
      elim (Bool-cases typed) [
        | inl e ↦ elim (Bool-cases named) [
          | inl e' ↦
              rw (e, e')
                (finish-Own asked.1 asked.0 (unfold ask_creation in o₁)
                  (unfold ask_creation number_service in (rw (==_self s) owner))
                  (unfold ask_creation number_service in (rw (==_self s) quality)))
          | inr e' ↦ rw (e, e') (inl (fail-Own w₁ o₁))
        ]
        | inr e ↦ rw e (inl (fail-Own w₁ o₁))
      ]

  support-Own :
      (support : Option (Option ServiceMembers)) (v : World Agent)
      → Own v
      → (v.services.at s).owner_node ≡ node
      → (v.services.at s).qos ≡ qos
      → let r = service_with_support library config node service_name support qos s v in
        NotServed w r ⊎ Served node qos w r
  unfolding service_with_support
  support-Own none v o owner quality = inl (fail-Own v o)
  support-Own (some none) v o owner quality = inl (
      fail-Own (set_service s (record (v.services.at s) { members = none }) v) (set-Own v _ o refl))
  support-Own (some (some members)) v o owner quality =
      open-Own members (set_service s (record (v.services.at s) { members = some members }) v)
        (set-Own v _ o refl) (rw (==_self s) owner) (rw (==_self s) quality)

  build-Own :
      (support : Option (Option ServiceMembers))
      → let v : World Agent = record w {
        services =
            with_memory
              (record { allocated = s ∷ w.services.memory.allocated; free = items })
              w.services;
      } in
        let r = build_service library config node service_name support qos s v in
        NotServed w r ⊎ Served node qos w r
  unfolding build_service
  build-Own support =
      let v : World Agent = record w {
        services =
            with_memory (record { allocated = s ∷ w.services.memory.allocated; free = items })
              w.services;
      } in
      let w₁ = claim_service s v in
      let o₁ : Own w₁ =
        unfold claim_service in
        (claim-Claimed service_handle w.services s items ne, (refl, refl, refl, refl, refl)) in
      elim (Bool-cases (ltb config.topic_name_max_length (length service_name + 1))) [
        | inl e ↦ rw e (inl (fail-Own w₁ o₁))
        | inr e ↦ rw e (
            support-Own support (describe_service library config node service_name qos s w₁)
              (unfold describe_service in (set-Own w₁ _ o₁ refl))
              (unfold describe_service in (rw (==_self s) refl))
              (unfold describe_service in (rw (==_self s) refl)))
      ]

module _ {Agent : Type 0} (library : XrceLibrary Agent) (config : Config) where
  service_in-cases :
      (node : Ptr) (service_name : List ℕ) (support : Option (Option ServiceMembers))
      (qos : QosProfile) (w : World Agent) (free : List Ptr)
      → w.services.memory.free ≡ free
      → has 0 free ≡ false
      → let r =
          service_in library config node service_name support qos
            (Pool.take w.services.memory.allocated free)
            w in
        NotServed w r ⊎ Served node qos w r
  unfolding service_in Pool.take
  service_in-cases node service_name support qos w [] e nz =
      inl (record { returns = refl; memory = refl; rest = (refl, refl, refl, refl, refl) })
  service_in-cases node service_name support qos w (s ∷ items) e nz =
      build-Own library config node service_name qos w s items (ground (arith, nz)) e support

  -- With no NULL among the free services, `rmw_create_service` either creates the first free
  -- service, which then belongs to the node, has the qualities of service, and has a handle that
  -- the functions on services accept, or returns NULL with the pool of services as it was, whatever
  -- step failed. It changes no topic, and no entity of another kind.
  pub create_service-cases :
      (node : Handle) (service_name : List ℕ) (support : Option (Option ServiceMembers))
      (qos : QosProfile) (w : World Agent)
      → has 0 w.services.memory.free ≡ false
      → let r = create_service library config node service_name support qos w in
        NotServed w r ⊎ Served node.contents qos w r
  unfolding create_service Pool.get
  create_service-cases node service_name support qos w nz =
      elim (Bool-cases (
        not (is_uxrce_rmw_identifier_valid node.implementation_identifier)
        || (length service_name == 0))) [
          | inl e ↦ rw e (
              inl (record { returns = refl; memory = refl; rest = (refl, refl, refl, refl, refl) }))
          | inr e ↦ rw e (
              service_in-cases node.contents service_name support qos w w.services.memory.free refl
                nz)
        ]
