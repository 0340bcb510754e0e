-- ===== src/Prelude/Lists.antt =====
-- Lists over the native numbers: measures, membership as a test, and removal.
use Prim.Native.Nat.{ℕ, zero, suc, ◌+◌, ◌-◌, ◌≤◌}
use mathlib.Core.Path.{◌≡◌, refl}
use mathlib.Core.Logic.{◌≢◌}
use mathlib.Core.Bool.{Bool, true, false, ◌||◌}
use mathlib.Core.List.{List, [], ◌∷◌, ◌++◌}
use native.Mathlib.Omega.{arith}
use rmw_microxrcedds.Prelude.Tests.{◌==◌, if◌then◌else◌}

module _ {ℓ} {A : Type ℓ} where
  abbrev pub length : List A → ℕ
  length [] = 0
  length (x ∷ xs) = suc (length xs)

  pub length-append : (xs ys : List A) → length (xs ++ ys) ≡ length xs + length ys
  length-append [] ys = omega arith
  length-append (x ∷ xs) ys = omega (arith, length-append xs ys)

abbrev pub has : ℕ → List ℕ → Bool
has a [] = false
has a (x ∷ xs) = (a == x) || has a xs

-- No member occurs twice.
abbrev pub Distinct : List ℕ → Type 0
Distinct [] = Unit {0}
Distinct (x ∷ xs) = (has x xs ≡ false) × Distinct xs

-- The lists have no member in common.
abbrev pub Apart : List ℕ → List ℕ → Type 0
Apart xs ys = (a : ℕ) → has a xs ≡ true → has a ys ≡ false

-- The list without the first occurrence of a member.
abbrev pub remove : ℕ → List ℕ → List ℕ
remove a [] = []
remove a (x ∷ xs) = if a == x then xs else x ∷ remove a xs

pub has-remove_le : (a b : ℕ) (xs : List ℕ) → has a xs ≡ false → has a (remove b xs) ≡ false
has-remove_le a b [] h = refl
has-remove_le a b (x ∷ xs) h = ground (arith, has-remove_le a b xs)

pub has-remove_self : (a : ℕ) (xs : List ℕ) → Distinct xs → has a (remove a xs) ≡ false
has-remove_self a [] d = refl
has-remove_self a (x ∷ xs) d = ground (arith, has-remove_self a xs d.1)

pub Distinct-remove : (a : ℕ) (xs : List ℕ) → Distinct xs → Distinct (remove a xs)
Distinct-remove a [] d = tt
Distinct-remove a (x ∷ xs) d = ground (arith, Distinct-remove a xs d.1, has-remove_le x a xs)

pub length-remove : (a : ℕ) (xs : List ℕ) → has a xs ≡ true → length xs ≡ suc (length (remove a xs))
length-remove a [] h = absurd (ground arith)
length-remove a (x ∷ xs) h = ground (arith, length-remove a xs)

pub has_of_remove :
    (a b : ℕ) (xs : List ℕ) → Distinct xs → has a (remove b xs) ≡ true → (a ≢ b) × (has a xs ≡ true)
has_of_remove a b [] d h = absurd (ground arith)
has_of_remove a b (x ∷ xs) d h = ground (arith, has_of_remove a b xs d.1)

pub remove-append :
    (x : ℕ) (kept xs : List ℕ) → has x kept ≡ false → remove x (kept ++ x ∷ xs) ≡ kept ++ xs
remove-append x [] xs out = ground arith
remove-append x (k ∷ kept) xs out = ground (arith, remove-append x kept xs)

pub has-append : (x : ℕ) (xs ys : List ℕ) → has x (xs ++ ys) ≡ (has x xs || has x ys)
has-append x [] ys = refl
has-append x (k ∷ xs) ys = ground (arith, has-append x xs ys)

module _ {ℓ} {A : Type ℓ} where
  abbrev pub get_or : List A → ℕ → A → A
  get_or [] i d = d
  get_or (x ∷ xs) zero d = x
  get_or (x ∷ xs) (suc i) d = get_or xs i d

  abbrev pub take : ℕ → List A → List A
  take zero xs = []
  take (suc n) [] = []
  take (suc n) (x ∷ xs) = x ∷ take n xs

  abbrev pub drop : ℕ → List A → List A
  drop zero xs = xs
  drop (suc n) [] = []
  drop (suc n) (x ∷ xs) = drop n xs

  pub take-append-drop : (n : ℕ) (xs : List A) → take n xs ++ drop n xs ≡ xs
  take-append-drop zero xs = refl
  take-append-drop (suc n) [] = refl
  take-append-drop (suc n) (x ∷ xs) = rw (take-append-drop n xs)

  pub length-take : (n : ℕ) (xs : List A) → n ≤ length xs → length (take n xs) ≡ n
  length-take zero xs h = omega arith
  length-take (suc n) [] h = absurd (omega arith)
  length-take (suc n) (x ∷ xs) h = omega (arith, length-take n xs (omega arith))

  pub length-drop : (n : ℕ) (xs : List A) → length (drop n xs) ≡ length xs - n
  length-drop zero xs = omega arith
  length-drop (suc n) [] = omega arith
  length-drop (suc n) (x ∷ xs) = omega (arith, length-drop n xs)
