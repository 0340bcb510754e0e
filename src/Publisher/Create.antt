-- ===== src/Publisher/Create.antt =====
-- `rmw_create_publisher` as a whole: what it leaves in the pools, and where it goes wrong.
use rmw_microxrcedds.Prelude.{
  ℕ, ◌≡◌, ◌≢◌, refl, sym, ◌∙◌, ◌⊎◌, inl, inr, Bool, false, not, ◌||◌, Option, none, List, [], ◌∷◌,
  arith, Bool-cases, ◌==◌, has, length,
}
use rmw_microxrcedds.Mempool.{Mempool, Fresh, get_memory, put_memory}
use rmw_microxrcedds.Pool
use rmw_microxrcedds.Types.{Ptr, QosProfile, Members, Handle}
use rmw_microxrcedds.Identifiers.{is_uxrce_rmw_identifier_valid}
use rmw_microxrcedds.Xrce.{XrceLibrary, Config, Publisher, World}
use rmw_microxrcedds.Endpoint.Pools.{Made}
use rmw_microxrcedds.Publisher.{publisher_slot, publisher_in, create_publisher}
use rmw_microxrcedds.Publisher.Failure.{build_publisher-cases}

module _ {Agent : Type 0} (library : XrceLibrary Agent) (config : Config) where
  -- Nothing was created, and the pools are as they were.
  abbrev pub Unchanged : World Agent → Option Ptr × World Agent → Type 0
  Unchanged w r =
      (r.0 ≡ none)
      × (r.1.publishers.memory ≡ w.publishers.memory)
      × (r.1.topics.memory ≡ w.topics.memory)

  -- The first free publisher was created, with the first free topic.
  abbrev pub Published : World Agent → Option Ptr × World Agent → Type 0
  Published w r =
      (p : Ptr) × (ps : List Ptr) × (w.publishers.memory.free ≡ p ∷ ps)
      × (ne : p ≢ 0) × Made publisher_slot Publisher.topic w p ps ne r

  publisher_in-cases :
      (node : Ptr) (topic_name : List ℕ) (support : Option (Option Members)) (qos : QosProfile)
      (w : World Agent) (free : List Ptr)
      → w.publishers.memory.free ≡ free
      → has 0 free ≡ false
      → has 0 w.topics.memory.free ≡ false
      → ((p : Ptr) (ps : List Ptr)
          → w.publishers.memory.free ≡ p ∷ ps
          → (w.publishers.at p).topic ≡ 0)
      → let r =
          publisher_in library config node topic_name support qos
            (Pool.take w.publishers.memory.allocated free)
            w in
        Unchanged w r ⊎ Published w r
  unfolding publisher_in Pool.take
  publisher_in-cases node topic_name support qos w [] e nz nt reset = inl (refl, refl, refl)
  publisher_in-cases node topic_name support qos w (p ∷ ps) e nz nt reset =
      let ne : p ≢ 0 = ground (arith, nz) in
      elim (build_publisher-cases library config node qos w p ps ne topic_name support
        (reset p ps e) nt) [
          | inl r ↦ inl (
            r.returns,
            r.entities
                ∙ (λ i. record { allocated = w.publishers.memory.allocated; free = sym e i }),
            r.topics,
          )
          | inr m ↦ inr (p, ps, e, ne, m)
        ]

  -- With no NULL among the free items, and no topic noted in the first free publisher,
  -- `rmw_create_publisher` either creates that publisher with the first free topic, or returns NULL
  -- with the pools of publishers and of topics as they were, whatever step failed.
  pub create_publisher-cases :
      (node : Handle) (topic_name : List ℕ) (support : Option (Option Members)) (qos : QosProfile)
      (w : World Agent)
      → has 0 w.publishers.memory.free ≡ false
      → has 0 w.topics.memory.free ≡ false
      → ((p : Ptr) (ps : List Ptr)
          → w.publishers.memory.free ≡ p ∷ ps
          → (w.publishers.at p).topic ≡ 0)
      → let r = create_publisher library config node topic_name support qos w in
        Unchanged w r ⊎ Published w r
  unfolding create_publisher Pool.get
  create_publisher-cases node topic_name support qos w nz nt reset =
      elim (Bool-cases (
        not (is_uxrce_rmw_identifier_valid node.implementation_identifier)
        || (length topic_name == 0))) [
          | inl e ↦ rw e (inl (refl, refl, refl))
          | inr e ↦ rw e (
              publisher_in-cases node.contents topic_name support qos w w.publishers.memory.free
                refl nz nt reset)
        ]

  -- The item is put back although nothing holds it, and on linked lists that follow the pool the
  -- next two calls of `get_memory` then return it.
  abbrev pub PutTwice : Bool → Mempool → Fresh → Fresh → Pool.Pool → Ptr → Type 0
  PutTwice dynamic m f g before t =
      (has t before.allocated ≡ false)
      × (let (first, m₁) = get_memory dynamic f (put_memory dynamic m t) in
          (first ≡ t) × ((get_memory dynamic g m₁).0 ≡ t))
