-- ===== src/Mempool/Chain.antt =====
-- Doubly linked lists through the items of memory.c, and what its writes do to them.
use rmw_microxrcedds.Prelude.{
  ◌≡◌, refl, ◌∙◌, ◌≢◌, ◌⊎◌, inl, inr, true, false, List, [], ◌∷◌, arith, Bool-cases, ==_iff, ◌==◌,
  if◌then◌else◌, has, Distinct, remove,
}
use rmw_microxrcedds.Mempool.{Ptr, null, Items}

-- From `p` the `next` pointers lead through the items `xs` to null, and the `prev` pointers back,
-- that of the first item to `before`.
abbrev pub Chain : Items → Ptr → Ptr → List Ptr → Type 0
Chain h before p [] = p ≡ null
Chain h before p (x ∷ xs) = (p ≡ x) × (x ≢ null) × ((h x).prev ≡ before) × Chain h x (h x).next xs

-- Two memories have the same links at an item.
abbrev pub SameLinks : Items → Items → Ptr → Type 0
SameLinks h g a = ((g a).prev ≡ (h a).prev) × ((g a).next ≡ (h a).next)

pub Chain-frame :
    (h g : Items) (before p : Ptr) (xs : List Ptr)
    → ((a : Ptr) → has a xs ≡ true → SameLinks h g a)
    → Chain h before p xs
    → Chain g before p xs
Chain-frame h g before p [] same c = c
Chain-frame h g before p (x ∷ xs) same c =
    let s = same x (ground arith) in
    let rest : Chain g x (h x).next xs =
      Chain-frame h g x (h x).next xs (λ a i. same a (ground arith)) c.3 in
    (c.0, c.1, ground arith, rw s.1 rest)

-- The pointer to the list is null or stands in the list.
pub Chain-first :
    (h : Items) (before n : Ptr) (xs : List Ptr)
    → Chain h before n xs
    → (n ≡ null) ⊎ (has n xs ≡ true)
Chain-first h before n [] c = inl c
Chain-first h before n (x ∷ xs) c = ground arith

pub Chain-null :
    (h : Items) (before n : Ptr) (xs : List Ptr) → Chain h before n xs → has null xs ≡ false
Chain-null h before n [] c = refl
Chain-null h before n (x ∷ xs) c = ground (arith, Chain-null h x (h x).next xs c.3)

pub Chain-cons :
    (g : Items) (before x n : Ptr) (xs : List Ptr)
    → x ≢ null
    → (g x).prev ≡ before
    → (g x).next ≡ n
    → Chain g x n xs
    → Chain g before x (x ∷ xs)
Chain-cons g before x n xs ne back forth c = (refl, ne, back, rw forth c)

-- Only the first item's `prev` changes, and the list begins behind another item.
pub Chain-relabel :
    (h g : Items) (before after n : Ptr) (xs : List Ptr)
    → Distinct xs
    → ((q : Ptr) → has q xs ≡ true → (g q).next ≡ (h q).next)
    → ((q : Ptr) → has q xs ≡ true → q ≢ n → (g q).prev ≡ (h q).prev)
    → (n ≢ null → (g n).prev ≡ after)
    → Chain h before n xs
    → Chain g after n xs
Chain-relabel h g before after n [] d forth back first c = c
Chain-relabel h g before after n (x ∷ xs) d forth back first c =
    let e : (g n).prev ≡ after = first (rw c.0 c.1) in
    let s : (g x).next ≡ (h x).next = forth x (ground arith) in
    let rest : Chain g x (h x).next xs =
      Chain-frame h g x (h x).next xs
        (λ a i. (back a (ground arith) (ground arith), forth a (ground arith))) c.3 in
    (c.0, c.1, (rw (c.0) at e), rw s rest)

-- The item before `p` comes before the list if `p` is its head, and else stands in it.
pub Chain-prev :
    (h : Items) (before n : Ptr) (xs : List Ptr) (p : Ptr)
    → Chain h before n xs
    → has p xs ≡ true
    → ((n ≡ p) × ((h p).prev ≡ before)) ⊎ ((n ≢ p) × (has (h p).prev xs ≡ true))
Chain-prev h before n [] p c i = absurd (ground arith)
Chain-prev h before n (x ∷ xs) p c i = ground (arith, Chain-prev h x (h x).next xs p c.3)

-- The item behind `p` is null or stands in the list.
pub Chain-next :
    (h : Items) (before n : Ptr) (xs : List Ptr) (p : Ptr)
    → Chain h before n xs
    → has p xs ≡ true
    → ((h p).next ≡ null) ⊎ (has (h p).next xs ≡ true)
Chain-next h before n [] p c i = absurd (ground arith)
Chain-next h before n (x ∷ xs) p c i =
    ground (arith, Chain-next h x (h x).next xs p c.3, Chain-first h x (h x).next xs c.3)

-- No item is its own predecessor.
pub Chain-prev_ne :
    (h : Items) (before n : Ptr) (xs : List Ptr) (p : Ptr)
    → Distinct xs
    → has before xs ≡ false
    → Chain h before n xs
    → has p xs ≡ true
    → (h p).prev ≢ p
Chain-prev_ne h before n [] p d out c i = absurd (ground arith)
Chain-prev_ne h before n (x ∷ xs) p d out c i = elim (Bool-cases (p == x)) [
  | inl hit ↦ ground arith
  | inr miss ↦ Chain-prev_ne h x (h x).next xs p d.1 d.0 c.3 (ground arith)
]

-- What the writes of an unlinking do: `b` comes behind `a`, and nothing else changes.
pub record Unlinks (h g : Items) (a b : Ptr) : Type 0 where
  pub next_same : (q : Ptr) → q ≢ a → (g q).next ≡ (h q).next
  pub prev_same : (q : Ptr) → q ≢ b → (g q).prev ≡ (h q).prev
  pub next_new : a ≢ null → (g a).next ≡ b
  pub prev_new : b ≢ null → (g b).prev ≡ a

Chain-remove_head :
    (h g : Items) (before p : Ptr) (xs : List Ptr)
    → Unlinks h g (h p).prev (h p).next
    → Distinct (p ∷ xs)
    → has before (p ∷ xs) ≡ false
    → Chain h before p (p ∷ xs)
    → Chain g before (h p).next xs
Chain-remove_head h g before p xs u d out c =
    Chain-relabel h g p before (h p).next xs d.1 (λ q i. u.next_same q (ground arith))
      (λ q i ne. u.prev_same q ne) (λ ne. u.prev_new ne ∙ c.2) c.3

module _ (h g : Items) (p : Ptr) (u : Unlinks h g (h p).prev (h p).next) where
  Chain-remove_prev :
      (before n x : Ptr) (xs : List Ptr)
      → Distinct (x ∷ xs)
      → has p xs ≡ true
      → Chain h before n (x ∷ xs)
      → (g x).prev ≡ before
  Chain-remove_prev before n x xs d i c =
      u.prev_same x (ground (arith, Chain-next h x (h x).next xs p c.3 i)) ∙ c.2

  Chain-remove_next :
      (before n x : Ptr) (xs : List Ptr)
      → Distinct (x ∷ xs)
      → has p xs ≡ true
      → Chain h before n (x ∷ xs)
      → (g x).next ≡ (if (h x).next == p then (h p).next else (h x).next)
  Chain-remove_next before n x xs d i c = elim (Chain-prev h x (h x).next xs p c.3 i) [
    | inl (here, back) ↦ ground (arith, u.next_new)
    | inr (far, inside) ↦ ground (arith, u.next_same x (ground arith))
  ]

  -- Unlinking `p` leaves the list without it.
  pub Chain-remove :
      (before n : Ptr) (xs : List Ptr)
      → Distinct xs
      → has before xs ≡ false
      → has p xs ≡ true
      → Chain h before n xs
      → Chain g before (if n == p then (h p).next else n) (remove p xs)
  Chain-remove before n [] d out i c = absurd (ground arith)
  Chain-remove before n (x ∷ xs) d out i c = elim (Bool-cases (p == x)) [
    | inl hit ↦
        let e : p ≡ x = (==_iff p x).0 hit in
        let f : (n == p) ≡ true = ground arith in
        let cp : Chain h before p (p ∷ xs) = (refl, rw e c.1, rw e c.2, (rw (← e) at c.3)) in
        rw (hit, f) (Chain-remove_head h g before p xs u (rw e d) (rw e out) cp)
    | inr miss ↦
        let f : (n == p) ≡ false = ground arith in
        let inside : has p xs ≡ true = ground arith in
        rw (miss, f, c.0)
          (Chain-cons g before x (if (h x).next == p then (h p).next else (h x).next) (remove p xs)
            c.1 (Chain-remove_prev before n x xs d inside c)
            (Chain-remove_next before n x xs d inside c)
            (Chain-remove x (h x).next xs d.1 d.0 inside c.3))
  ]
