-- ===== src/Client/Life.antt =====
-- The creation of a client by `rmw_create_client`
-- (rmw_microxrcedds_c/src/rmw_client.c): its pool, its owner and its handle.
use rmw_microxrcedds.Prelude.{
  ℕ, ◌+◌, ◌≡◌, ◌≢◌, refl, sym, ◌∙◌, ◌⊎◌, inl, inr, Bool, true, false, not, ◌||◌, Option, none, some,
  List, [], ◌∷◌, arith, Bool-cases, ==_self, ◌==◌, has, length, ltb,
}
use rmw_microxrcedds.Pool
use rmw_microxrcedds.Types.{Ptr, QosProfile, ServiceMembers, Handle, Client}
use rmw_microxrcedds.Identifiers.{is_uxrce_rmw_identifier_valid}
use rmw_microxrcedds.Entity.{with_memory}
use rmw_microxrcedds.Entity.Claim.{
  Claimed, claim-Claimed, set-Claimed, fini-Claimed, valid-Claimed, IsHandle,
}
use rmw_microxrcedds.Names.{generate_service_types, generate_service_topics}
use rmw_microxrcedds.Xrce.{
  XrceLibrary, Config, World, ask_creation, buffer_creation, convert_qos_profile,
  create_requester_bin,
}
use rmw_microxrcedds.Client.{
  client_handle, set_client, fail_client, claim_client, describe_client, number_client,
  start_client, finish_client, open_client, client_with_support, build_client, client_in,
  create_client,
}

-- The topics and the entities other than clients are the same.
abbrev pub SameButClients : {Agent : Type 0} → World Agent → World Agent → Type 0
SameButClients w v =
    (v.nodes ≡ w.nodes)
    × (v.topics ≡ w.topics)
    × (v.publishers ≡ w.publishers)
    × (v.subscriptions ≡ w.subscriptions)
    × (v.services ≡ w.services)

-- Nothing was created, and the pool is as it was.
pub record NotConnected {Agent : Type 0} (w : World Agent) (r : Option Ptr × World Agent)
    : Type 0 where
  pub returns : r.0 ≡ none
  pub memory : r.1.clients.memory ≡ w.clients.memory
  pub rest : SameButClients w r.1

-- The first free client was created: it is the first allocated one, belongs to the node, has the
-- qualities of service, and its handle is accepted.
pub record Connected {Agent : Type 0} (node : Ptr) (qos : QosProfile) (w : World Agent)
    (r : Option Ptr × World Agent) : Type 0 where
  pub item : Ptr
  pub items : List Ptr
  pub free : w.clients.memory.free ≡ item ∷ items
  pub returns : r.0 ≡ some item
  pub memory :
      r.1.clients.memory ≡ record { allocated = item ∷ w.clients.memory.allocated; free = items }
  pub owner : (r.1.clients.at item).owner_node ≡ node
  pub quality : (r.1.clients.at item).qos ≡ qos
  pub accepted : IsHandle (r.1.clients.at item).handle
  pub rest : SameButClients w r.1

module _ {Agent : Type 0} (library : XrceLibrary Agent) (config : Config) (node : Ptr)
    (service_name : List ℕ) (qos : QosProfile) (w : World Agent) (c : Ptr) (items : List Ptr)
    (ne : c ≢ 0) (free : w.clients.memory.free ≡ c ∷ items) where
  abbrev Own : World Agent → Type 0
  Own v = Claimed client_handle w.clients c items ne v.clients × SameButClients w v

  set-Own :
      (v : World Agent) (d : Client)
      → Own v
      → d.handle ≡ (v.clients.at c).handle
      → Own (set_client c d v)
  set-Own v d (held, rest) e =
      (set-Claimed client_handle w.clients c items ne v.clients d held e, rest)

  fail-Own : (v : World Agent) → Own v → NotConnected w (fail_client c v)
  unfolding fail_client
  fail-Own v (held, rest) = record {
    returns = refl;
    memory =
        fini-Claimed client_handle w.clients c items ne v.clients held
        ∙ (λ i. record { allocated = w.clients.memory.allocated; free = sym free i });
    rest = rest;
  }

  finish-Own :
      (v : World Agent) (done : Bool)
      → Own v
      → (v.clients.at c).owner_node ≡ node
      → (v.clients.at c).qos ≡ qos
      → NotConnected w (finish_client library config node qos c done v)
        ⊎ Connected node qos w (finish_client library config node qos c done v)
  unfolding finish_client
  finish-Own v false o owner quality = inl (fail-Own v o)
  finish-Own v true o owner quality =
      let v' = start_client library config node qos c v in
      let o' : Own v' = unfold start_client buffer_creation in (set-Own v _ o refl) in
      inr (record {
        item = c;
        items = items;
        free = free;
        returns = refl;
        memory = (o'.0).memory;
        owner = unfold start_client buffer_creation in (rw (==_self c) owner);
        quality = unfold start_client buffer_creation in (rw (==_self c) quality);
        accepted = valid-Claimed client_handle w.clients c items ne v'.clients o'.0;
        rest = o'.1;
      })

  open-Own :
      (members : ServiceMembers) (v : World Agent)
      → Own v
      → (v.clients.at c).owner_node ≡ node
      → (v.clients.at c).qos ≡ qos
      → let r = open_client library config node service_name members qos c v in
        NotConnected w r ⊎ Connected node qos w r
  unfolding open_client
  open-Own members v o owner quality =
      let w₁ = number_client library config node c v in
      let o₁ : Own w₁ = unfold number_client in (set-Own v _ o refl) in
      let (typed, req_type_name, res_type_name) =
        generate_service_types members config.type_name_max_length in
      let (named, req_topic_name, res_topic_name) =
        generate_service_topics service_name config.topic_name_max_length in
      let asked =
        ask_creation library node
          (create_requester_bin (w₁.clients.at c).client_id (w₁.nodes.at node).participant_id
            service_name req_type_name res_type_name req_topic_name res_topic_name
            (convert_qos_profile qos))
          w₁ in
      elim (Bool-cases typed) [
        | inl e ↦ elim (Bool-cases named) [
          | inl e' ↦
              rw (e, e')
                (finish-Own asked.1 asked.0 (unfold ask_creation in o₁)
                  (unfold ask_creation number_client in (rw (==_self c) owner))
                  (unfold ask_creation number_client in (rw (==_self c) quality)))
          | inr e' ↦ rw (e, e') (inl (fail-Own w₁ o₁))
        ]
        | inr e ↦ rw e (inl (fail-Own w₁ o₁))
      ]

  support-Own :
      (support : Option (Option ServiceMembers)) (v : World Agent)
      → Own v
      → (v.clients.at c).owner_node ≡ node
      → (v.clients.at c).qos ≡ qos
      → let r = client_with_support library config node service_name support qos c v in
        NotConnected w r ⊎ Connected node qos w r
  unfolding client_with_support
  support-Own none v o owner quality = inl (fail-Own v o)
  support-Own (some none) v o owner quality =
      inl (
        fail-Own (set_client c (record (v.clients.at c) { members = none }) v) (set-Own v _ o refl))
  support-Own (some (some members)) v o owner quality =
      open-Own members (set_client c (record (v.clients.at c) { members = some members }) v)
        (set-Own v _ o refl) (rw (==_self c) owner) (rw (==_self c) quality)

  build-Own :
      (support : Option (Option ServiceMembers))
      → let v : World Agent = record w {
        clients =
            with_memory
              (record { allocated = c ∷ w.clients.memory.allocated; free = items })
              w.clients;
      } in
        let r = build_client library config node service_name support qos c v in
        NotConnected w r ⊎ Connected node qos w r
  unfolding build_client
  build-Own support =
      let v : World Agent = record w {
        clients =
            with_memory (record { allocated = c ∷ w.clients.memory.allocated; free = items })
              w.clients;
      } in
      let w₁ = claim_client c v in
      let o₁ : Own w₁ =
        unfold claim_client in
        (claim-Claimed client_handle w.clients c items ne, (refl, refl, refl, refl, refl)) in
      elim (Bool-cases (ltb config.topic_name_max_length (length service_name + 1))) [
        | inl e ↦ rw e (inl (fail-Own w₁ o₁))
        | inr e ↦ rw e (
            support-Own support (describe_client library config node service_name qos c w₁)
              (unfold describe_client in (set-Own w₁ _ o₁ refl))
              (unfold describe_client in (rw (==_self c) refl))
              (unfold describe_client in (rw (==_self c) refl)))
      ]

module _ {Agent : Type 0} (library : XrceLibrary Agent) (config : Config) where
  client_in-cases :
      (node : Ptr) (service_name : List ℕ) (support : Option (Option ServiceMembers))
      (qos : QosProfile) (w : World Agent) (free : List Ptr)
      → w.clients.memory.free ≡ free
      → has 0 free ≡ false
      → let r =
          client_in library config node service_name support qos
            (Pool.take w.clients.memory.allocated free)
            w in
        NotConnected w r ⊎ Connected node qos w r
  unfolding client_in Pool.take
  client_in-cases node service_name support qos w [] e nz =
      inl (record { returns = refl; memory = refl; rest = (refl, refl, refl, refl, refl) })
  client_in-cases node service_name support qos w (c ∷ items) e nz =
      build-Own library config node service_name qos w c items (ground (arith, nz)) e support

  -- With no NULL among the free clients, `rmw_create_client` either creates the first free client,
  -- which then belongs to the node, has the qualities of service, and has a handle that the
  -- functions on clients accept, or returns NULL with the pool of clients as it was, whatever step
  -- failed. It changes no topic, and no entity of another kind.
  pub create_client-cases :
      (node : Handle) (service_name : List ℕ) (support : Option (Option ServiceMembers))
      (qos : QosProfile) (w : World Agent)
      → has 0 w.clients.memory.free ≡ false
      → let r = create_client library config node service_name support qos w in
        NotConnected w r ⊎ Connected node.contents qos w r
  unfolding create_client Pool.get
  create_client-cases node service_name support qos w nz =
      elim (Bool-cases (
        not (is_uxrce_rmw_identifier_valid node.implementation_identifier)
        || (length service_name == 0))) [
          | inl e ↦ rw e (
              inl (record { returns = refl; memory = refl; rest = (refl, refl, refl, refl, refl) }))
          | inr e ↦ rw e (
              client_in-cases node.contents service_name support qos w w.clients.memory.free refl
                nz)
        ]
