-- ===== src/Node/Clear.antt =====
-- A loop of `rmw_destroy_node` (rmw_microxrcedds_c/src/rmw_node.c) against a description by lists:
-- the entities of the node leave the allocated list and are put before the free ones.
use rmw_microxrcedds.Prelude.{
  ℕ, ◌≡◌, refl, sym, ap, ◌∙◌, inl, inr, Bool, true, false, List, [], ◌∷◌, arith, Bool-cases, ◌==◌,
  if◌then◌else◌, has, Distinct, remove,
}
use rmw_microxrcedds.Pool
use rmw_microxrcedds.Pool.{Pool}
use rmw_microxrcedds.Types.{Ptr, RmwRet, Handle, Entities}
use rmw_microxrcedds.Entity.Claim.{IsHandle}
use rmw_microxrcedds.Xrce.{World}
use rmw_microxrcedds.Node.{is_error, destroy_each}

-- The members that do not pass the test, in order.
abbrev pub spared : (ℕ → Bool) → List ℕ → List ℕ
spared f [] = []
spared f (x ∷ xs) = if f x then spared f xs else x ∷ spared f xs

-- The members that pass it, put one by one before the others.
abbrev pub returned : (ℕ → Bool) → List ℕ → List ℕ → List ℕ
returned f [] free = free
returned f (x ∷ xs) free = if f x then returned f xs (x ∷ free) else returned f xs free

-- The list from which the members of another that pass the test are removed one by one.
abbrev strike : (ℕ → Bool) → List ℕ → List ℕ → List ℕ
strike f [] ys = ys
strike f (x ∷ xs) ys = if f x then strike f xs (remove x ys) else strike f xs ys

strike-∷ :
    (f : ℕ → Bool) (xs ys : List ℕ) (y : ℕ)
    → has y xs ≡ false
    → strike f xs (y ∷ ys) ≡ y ∷ strike f xs ys
strike-∷ f [] ys y e = refl
strike-∷ f (x ∷ xs) ys y e =
    let apart : (x == y) ≡ false = ground (arith, e) in
    let outside : has y xs ≡ false = ground (arith, e) in
    elim (Bool-cases (f x)) [
      | inl t ↦ rw (t, apart) (strike-∷ f xs (remove x ys) y outside)
      | inr t ↦ rw t (strike-∷ f xs ys y outside)
    ]

strike_self : (f : ℕ → Bool) (xs : List ℕ) → Distinct xs → strike f xs xs ≡ spared f xs
strike_self f [] d = refl
strike_self f (x ∷ xs) d =
    let same : (x == x) ≡ true = ground arith in
    elim (Bool-cases (f x)) [
      | inl t ↦ rw (t, same) (strike_self f xs d.1)
      | inr t ↦ rw t (strike-∷ f xs xs x d.0 ∙ ap (λ l. x ∷ l) (strike_self f xs d.1))
    ]

-- The pool after the loop.
abbrev pub cleared : (ℕ → Bool) → Pool → Pool
cleared f p = record { allocated = spared f p.allocated; free = returned f p.allocated p.free }

module _ {Agent A : Type 0} (entities : World Agent → Entities A) (owner : A → Ptr) (n : Ptr) where
  abbrev pub owned : World Agent → Ptr → Bool
  owned w x = owner ((entities w).at x) == n

  -- The entities of a list that belong to the node have their handles.
  abbrev pub Handles : (A → Handle) → World Agent → List Ptr → Type 0
  Handles handle w xs =
      (x : Ptr) → has x xs ≡ true → owned w x ≡ true → IsHandle (handle ((entities w).at x))

  -- What a loop has done with the list it walks. It leaves what `same` speaks of.
  record Walked (same : World Agent → World Agent → Type 0) (xs : List Ptr) (w : World Agent)
      (r : RmwRet × World Agent) : Type 0 where
    pub answer : is_error r.0 ≡ false
    pub allocated :
        (entities r.1).memory.allocated ≡ strike (owned w) xs (entities w).memory.allocated
    pub free : (entities r.1).memory.free ≡ returned (owned w) xs (entities w).memory.free
    pub others : (y : Ptr) → owned w y ≡ false → (entities r.1).at y ≡ (entities w).at y
    pub nodes : r.1.nodes ≡ w.nodes
    pub rest : same w r.1

  -- After the loop over the allocated entities, the pool is cleared of those of the node.
  pub record Cleared (same : World Agent → World Agent → Type 0) (w : World Agent)
      (r : RmwRet × World Agent) : Type 0 where
    pub answer : is_error r.0 ≡ false
    pub memory : (entities r.1).memory ≡ cleared (owned w) (entities w).memory
    pub others : (y : Ptr) → owned w y ≡ false → (entities r.1).at y ≡ (entities w).at y
    pub nodes : r.1.nodes ≡ w.nodes
    pub rest : same w r.1

module _ {Agent A : Type 0} (entities : World Agent → Entities A) (owner : A → Ptr)
    (handle : A → Handle) (destroy : Handle → Ptr → World Agent → RmwRet × World Agent)
    (same : World Agent → World Agent → Type 0) where
  -- What the destruction of one entity with a handle does.
  pub record Destroys (x : Ptr) (w : World Agent) (r : RmwRet × World Agent) : Type 0 where
    pub answer : is_error r.0 ≡ false
    pub memory : (entities r.1).memory ≡ Pool.put x (entities w).memory
    pub others : (y : Ptr) → (y == x) ≡ false → (entities r.1).at y ≡ (entities w).at y
    pub owners : (y : Ptr) → owner ((entities r.1).at y) ≡ owner ((entities w).at y)
    pub nodes : r.1.nodes ≡ w.nodes
    pub rest : same w r.1

  module _ (n : Ptr) (w₀ : World Agent) (refl_same : (w : World Agent) → same w w)
      (trans_same : (u v w : World Agent) → same u v → same v w → same u w)
      (destroys : (w : World Agent) (x : Ptr)
        → w.nodes ≡ w₀.nodes
        → IsHandle (handle ((entities w).at x))
        → Destroys x w (destroy (w.nodes.at n).handle x w)) where
    abbrev mine : World Agent → Ptr → Bool
    mine = owned entities owner n

    abbrev Held : World Agent → List Ptr → Type 0
    Held = Handles entities owner n handle

    abbrev Done : List Ptr → World Agent → RmwRet × World Agent → Type 0
    Done = Walked entities owner n same

    abbrev loop : List Ptr → RmwRet → World Agent → RmwRet × World Agent
    loop = destroy_each (λ w x. owner ((entities w).at x)) destroy n

    keep-Handles :
        (w : World Agent) (x : Ptr) (xs : List Ptr) (r : RmwRet × World Agent)
        → has x xs ≡ false
        → Destroys x w r
        → Held w (x ∷ xs)
        → Held r.1 xs
    keep-Handles w x xs r outside s hs y m o =
        let apart : (y == x) ≡ false = elim (Bool-cases (y == x)) [
          | inl e ↦ absurd (ground (arith, e, m, outside))
          | inr e ↦ e
        ] in
        rw (s.others y apart) (hs y (ground (arith, m)) ((λ i. sym (s.owners y) i == n) ∙ o))

    walk_step :
        (w : World Agent) (x : Ptr) (xs : List Ptr) (r v : RmwRet × World Agent)
        → mine w x ≡ true
        → Destroys x w r
        → Done xs r.1 v
        → Done (x ∷ xs) w v
    unfolding Pool.put
    walk_step w x xs r v own s k =
        let f : mine r.1 ≡ mine w = λ i y. s.owners y i == n in
        record {
          answer = k.answer;
          allocated = rw own (k.allocated ∙ (λ i. strike (f i) xs (s.memory i).allocated));
          free = rw own (k.free ∙ (λ i. returned (f i) xs (s.memory i).free));
          others = λ y o.
              let apart : (y == x) ≡ false = elim (Bool-cases (y == x)) [
                | inl e ↦ absurd (ground (arith, e, o, own))
                | inr e ↦ e
              ] in
              k.others y ((λ i. f i y) ∙ o) ∙ s.others y apart;
          nodes = k.nodes ∙ s.nodes;
          rest = trans_same w r.1 v.1 s.rest k.rest;
        }

    -- The loop destroys the entities of the node, and no others.
    walk :
        (xs : List Ptr) (ret : RmwRet) (w : World Agent)
        → is_error ret ≡ false
        → w.nodes ≡ w₀.nodes
        → Distinct xs
        → Held w xs
        → Done xs w (loop xs ret w)
    unfolding destroy_each
    walk [] ret w ok nodes d hs = record {
      answer = ok;
      allocated = refl;
      free = refl;
      others = λ y o. refl;
      nodes = refl;
      rest = refl_same w;
    }
    walk (x ∷ xs) ret w ok nodes d hs = elim (Bool-cases (mine w x)) [
      | inl own ↦
          let r = destroy (w.nodes.at n).handle x w in
          let s = destroys w x nodes (hs x (ground arith) own) in
          rw (own, s.answer)
            (walk_step w x xs r (loop xs r.0 r.1) own s
              (walk xs r.0 r.1 s.answer (s.nodes ∙ nodes) d.1 (keep-Handles w x xs r d.0 s hs)))
      | inr own ↦
          let k = walk xs ret w ok nodes d.1 (λ y m o. hs y (ground (arith, m)) o) in
          rw own (record {
            answer = k.answer;
            allocated = rw own k.allocated;
            free = rw own k.free;
            others = k.others;
            nodes = k.nodes;
            rest = k.rest;
          })
    ]

    pub destroy_each-Cleared :
        (ret : RmwRet) (w : World Agent)
        → is_error ret ≡ false
        → w.nodes ≡ w₀.nodes
        → Distinct (entities w).memory.allocated
        → Held w (entities w).memory.allocated
        → Cleared entities owner n same w (loop (entities w).memory.allocated ret w)
    destroy_each-Cleared ret w ok nodes d hs =
        let k = walk (entities w).memory.allocated ret w ok nodes d hs in
        let a = k.allocated ∙ strike_self (mine w) (entities w).memory.allocated d in
        record {
          answer = k.answer;
          memory = λ i. record { allocated = a i; free = k.free i };
          others = k.others;
          nodes = k.nodes;
          rest = k.rest;
        }
