-- ===== src/Pool.antt =====
-- What a memory pool promises its clients: the allocated and the free items, as two lists.
-- Mempool/Refinement.antt and Mempool/Get.antt show that rmw_microxrcedds_c/src/memory.c keeps it.
use rmw_microxrcedds.Prelude.{
  ℕ, ◌+◌, ◌≡◌, refl, true, Option, none, some, List, [], ◌∷◌, has, remove, length, length-remove,
  arith,
}

-- The heads of the lists are those of the linked lists.
pub record Pool : Type 0 where
  pub allocated : List ℕ
  pub free : List ℕ

unfoldable pub take : List ℕ → List ℕ → Option ℕ × Pool
take xs [] = (none, record { allocated = xs; free = [] })
take xs (y ∷ ys) = (some y, record { allocated = y ∷ xs; free = ys })

-- `get_memory` without dynamic allocation.
unfoldable pub get : Pool → Option ℕ × Pool
unfolding take
get p = take p.allocated p.free

-- `put_memory` of an item that is held and not dynamic. Where no client holds the item the lists say
-- which call was made, and no longer what the linked lists are: Mempool/DoublePut.antt.
unfoldable pub put : ℕ → Pool → Pool
put x p = record { allocated = remove x p.allocated; free = x ∷ p.free }

pub data Call : Type 0 where
  gets : Call
  puts : ℕ → Call

unfoldable pub step : Pool → Call → Pool
unfolding get put
step p gets = (get p).1
step p (puts x) = put x p

unfoldable pub run : Pool → List Call → Pool
unfolding step
run p [] = p
run p (c ∷ cs) = run (step p c) cs

-- A client puts back only what it holds.
abbrev pub Legal : Pool → List Call → Type 0
unfolding step
Legal p [] = Unit {0}
Legal p (gets ∷ cs) = Legal (step p gets) cs
Legal p (puts x ∷ cs) = (has x p.allocated ≡ true) × Legal (step p (puts x)) cs

abbrev pub size : Pool → ℕ
size p = length p.allocated + length p.free

take-size : (xs ys : List ℕ) → size (take xs ys).1 ≡ length xs + length ys
unfolding take
take-size xs [] = refl
take-size xs (y ∷ ys) = omega arith

pub get-size : (p : Pool) → size (get p).1 ≡ size p
unfolding get
get-size p = take-size p.allocated p.free

pub put-size : (x : ℕ) (p : Pool) → has x p.allocated ≡ true → size (put x p) ≡ size p
unfolding put
put-size x p held = omega (arith, length-remove x p.allocated held)
