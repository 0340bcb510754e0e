-- ===== src/Graph/Grammar.antt =====
-- What it means that a buffer holds a graph, and readers that read just what a grammar describes,
-- for rmw_graph.c (rmw_microxrcedds_c/src).
use rmw_microxrcedds.Prelude.{
  ℕ, zero, suc, ◌≡◌, refl, sym, ap, ◌∙◌, Bool, true, false, List, [], ◌∷◌, length, arith,
  Bool-cases, inl, inr,
}
use mathlib.Core.Path.{subst}
use rmw_microxrcedds.Types.{GraphInfo}
use rmw_microxrcedds.Graph.{
  Text, GraphEntity, GraphNode, Graph, CdrLibrary, Reader, pure, ◌>>=◌, check_retval, fill_items,
}

-- A description of what stands between two positions of a buffer.
abbrev pub Grammar : Type 0 → Type 0 → Type 1
Grammar Buffer A = Buffer → A → Buffer → Type 0

module _ {Buffer : Type 0} where
  -- The values, one after the other.
  unfoldable pub ItemsAt : {A : Type 0} → Grammar Buffer A → Grammar Buffer (List A)
  ItemsAt P b [] b' = b ≡ b'
  ItemsAt P b (a ∷ as') b' = (c : Buffer) × P b a c × ItemsAt P c as' b'

module _ {Buffer : Type 0} (cdr : CdrLibrary Buffer) where
  abbrev pub TextAt : Grammar Buffer Text
  TextAt b text b' = cdr.deserialize_string 256 b ≡ (true, text, b')

  -- The number of the values, and the values.
  abbrev pub SequenceAt : {A : Type 0} → Grammar Buffer A → Grammar Buffer (List A)
  SequenceAt P b items b' =
      (c : Buffer) × (cdr.deserialize_uint32_t b ≡ (true, length items, c)) × ItemsAt P c items b'

  abbrev pub EntityAt : Grammar Buffer GraphEntity
  EntityAt b e b' =
      (c d : Buffer) × (cdr.deserialize_uint8_t b ≡ (true, e.entity_type, c))
      × TextAt c e.name d
      × SequenceAt TextAt d e.types b'

  abbrev pub NodeAt : Grammar Buffer GraphNode
  NodeAt b n b' =
      (c d : Buffer) × TextAt b n.node_namespace c
      × TextAt c n.node_name d
      × SequenceAt EntityAt d n.entities b'

  -- The buffer of the graph starts with the nodes.
  abbrev pub GraphAt : GraphInfo → Graph → Type 0
  GraphAt g nodes =
      (b' : Buffer) × SequenceAt NodeAt (cdr.init_buffer g.micro_buffer g.micro_buffer_length) nodes
        b'

module _ {Buffer : Type 0} where
  -- A reader keeps an error, and from no error it succeeds on what the grammar describes.
  pub record Reads {A : Type 0} (p : Reader Buffer A) (P : Grammar Buffer A) : Type 0 where
    pub sticky : (b : Buffer) → (p false b).1 ≡ false
    pub to : (b : Buffer) (a : A) (b' : Buffer) → p true b ≡ (a, true, b') → P b a b'
    pub from : (b : Buffer) (a : A) (b' : Buffer) → P b a b' → p true b ≡ (a, true, b')

  pub check_retval-Reads :
      {A : Type 0} (f : Buffer → Bool × A × Buffer)
      → Reads (check_retval f) (λ b a b'. f b ≡ (true, a, b'))
  unfolding check_retval
  check_retval-Reads {A = A} f = record {
    sticky = λ b. refl;
    to = λ b a b' e. ap (λ (t : A × Bool × Buffer). (t.1, t.0, t.2)) e;
    from = λ b a b' e. ap (λ (t : Bool × A × Buffer). (t.1, t.0, t.2)) e;
  }

  pub pure-Reads :
      {A : Type 0} (a : A) → Reads (pure a) (λ b x b'. ◌≡◌ {A = A × Buffer} (a, b) (x, b'))
  pure-Reads {A = A} a = record {
    sticky = λ b. refl;
    to = λ b x b' e. ap (λ (t : A × Bool × Buffer). (t.0, t.2)) e;
    from = λ b x b' h. ap (λ (t : A × Buffer). (t.0, true, t.1)) h;
  }

  module _ {A B : Type 0} where
    -- The reader that ran first succeeded too.
    bind_split :
        (m : Reader Buffer A) (f : A → Reader Buffer B)
        → ((a : A) (b : Buffer) → (f a false b).1 ≡ false)
        → (b : Buffer) (x : B) (b' : Buffer) → (m >>= f) true b ≡ (x, true, b')
        → (a : A) × (c : Buffer) × (m true b ≡ (a, true, c)) × (f a true c ≡ (x, true, b'))
    unfolding ◌>>=◌
    bind_split m f keeps b x b' e = elim (Bool-cases (m true b).1) [
      | inl ok ↦ (
        (m true b).0,
        (m true b).2,
        ap (λ (r : Bool). ((m true b).0, r, (m true b).2)) ok,
        ap (λ (r : Bool). f (m true b).0 r (m true b).2) (sym ok) ∙ e,
      )
      | inr failed ↦
          let ended =
            ap (λ (r : Bool). (f (m true b).0 r (m true b).2).1) (sym failed)
            ∙ ap (λ (t : B × Bool × Buffer). t.1) e in
          absurd (ground (arith, sym (keeps (m true b).0 (m true b).2) ∙ ended))
    ]

    bind_join :
        (m : Reader Buffer A) (f : A → Reader Buffer B)
        → (b : Buffer) (a : A) (c : Buffer) (y : B × Bool × Buffer) → m true b ≡ (a, true, c)
        → f a true c ≡ y
        → (m >>= f) true b ≡ y
    unfolding ◌>>=◌
    bind_join m f b a c y h k = ap (λ (t : A × Bool × Buffer). f t.0 t.1 t.2) h ∙ k

    bind_sticky :
        (m : Reader Buffer A) (f : A → Reader Buffer B)
        → ((b : Buffer) → (m false b).1 ≡ false)
        → ((a : A) (b : Buffer) → (f a false b).1 ≡ false)
        → (b : Buffer) → ((m >>= f) false b).1 ≡ false
    unfolding ◌>>=◌
    bind_sticky m f keeps keeps' b =
        ap (λ (r : Bool). (f (m false b).0 r (m false b).2).1) (keeps b)
        ∙ keeps' (m false b).0 (m false b).2

    -- A reader with another after it, whose grammar depends on the value.
    pub bind-Reads :
        {P : Grammar Buffer A} {Q : A → Grammar Buffer B} {m : Reader Buffer A}
        {f : A → Reader Buffer B}
        → Reads m P
        → ((a : A) → Reads (f a) (Q a))
        → Reads (m >>= f) (λ b x b'. (a : A) × (c : Buffer) × P b a c × Q a c x b')
    bind-Reads {m = m} {f = f} p q = record {
      sticky = bind_sticky m f p.sticky (λ a. (q a).sticky);
      to = λ b x b' e.
          let (a, c, h, k) = bind_split m f (λ a. (q a).sticky) b x b' e in
          (a, c, p.to b a c h, (q a).to c x b' k);
      from = λ b x b' (a, c, h, k).
          bind_join m f b a c (x, true, b') (p.from b a c h) ((q a).from c x b' k);
    }

  module _ {A : Type 0} {P : Grammar Buffer A} {p : Reader Buffer A} (blank : A)
      (r : Reads p P) where
    items_sticky : (n : ℕ) (b : Buffer) → (fill_items blank p n false b).1 ≡ false
    unfolding fill_items
    items_sticky zero b = refl
    items_sticky (suc n) b = refl

    rest_sticky :
        (n : ℕ) (a : A) (b : Buffer)
        → ((fill_items blank p n >>= λ rest. pure (a ∷ rest)) false b).1 ≡ false
    rest_sticky n a =
        bind_sticky (fill_items blank p n) (λ rest. pure (a ∷ rest)) (items_sticky n)
          (λ rest b. refl)

    items_to :
        (n : ℕ) (b : Buffer) (items : List A) (b' : Buffer)
        → fill_items blank p n true b ≡ (items, true, b')
        → (n ≡ length items) × ItemsAt P b items b'
    unfolding fill_items ItemsAt
    items_to zero b items b' e =
        subst (λ (t : List A × Bool × Buffer). (0 ≡ length t.0) × ItemsAt P b t.0 t.2) e
          (refl, refl)
    items_to (suc n) b items b' e =
        let (a, c, h, k) =
          bind_split p (λ a. fill_items blank p n >>= λ rest. pure (a ∷ rest)) (rest_sticky n) b
            items b' e in
        let (rest, d, h', k') =
          bind_split (fill_items blank p n) (λ rest. pure (a ∷ rest)) (λ rest b. refl) c items b'
            k in
        let (size, stand) = items_to n c rest d h' in
        subst (λ (t : List A × Bool × Buffer). (suc n ≡ length t.0) × ItemsAt P b t.0 t.2) k'
          (ap (λ (k : ℕ). suc k) size, (c, r.to b a c h, stand))

    items_from :
        (b : Buffer) (items : List A) (b' : Buffer)
        → ItemsAt P b items b'
        → fill_items blank p (length items) true b ≡ (items, true, b')
    unfolding fill_items ItemsAt
    items_from b [] b' e = ap (λ (c : Buffer). ([], true, c)) e
    items_from b (a ∷ rest) b' (c, h, stand) =
        bind_join p (λ a. fill_items blank p (length rest) >>= λ rest. pure (a ∷ rest)) b a c
          (a ∷ rest, true, b') (r.from b a c h)
          (bind_join (fill_items blank p (length rest)) (λ rest. pure (a ∷ rest)) c rest b'
            (a ∷ rest, true, b') (items_from c rest b' stand) refl)

    pub items-Reads :
        (n : ℕ)
        → Reads (fill_items blank p n) (λ b items b'. (n ≡ length items) × ItemsAt P b items b')
    items-Reads n = record {
      sticky = items_sticky n;
      to = items_to n;
      from = λ b items b' (size, stand). rw size (items_from b items b' stand);
    }
