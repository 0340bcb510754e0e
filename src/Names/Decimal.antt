-- ===== src/Names/Decimal.antt =====
-- The numbers in the names of utils.c (rmw_microxrcedds_c/src) can be read again.
use rmw_microxrcedds.Prelude.{
  ℕ, zero, suc, ◌+◌, ◌-◌, ◌*◌, ◌/◌, ◌%◌, ◌<◌, ◌≡◌, refl, inl, inr, Bool-cases, List, [], ◌∷◌, ◌++◌,
  ltb, arith,
}
use rmw_microxrcedds.Names.Xml.{decimal}

-- The number that digits stand for, after a number before them.
unfoldable pub value : ℕ → List ℕ → ℕ
value acc [] = acc
value acc (d ∷ ds) = value (acc * 10 + (d - 48)) ds

value-append : (acc : ℕ) (xs ys : List ℕ) → value acc (xs ++ ys) ≡ value (value acc xs) ys
unfolding value
value-append acc [] ys = refl
value-append acc (x ∷ xs) ys = value-append (acc * 10 + (x - 48)) xs ys

-- One more than the largest number of so many digits.
unfoldable pub limit : ℕ → ℕ
limit zero = 1
limit (suc width) = 10 * limit width

-- The decimal digits of a number that has room for them stand for it.
pub decimal-value : (width n : ℕ) → n < limit width → value 0 (decimal width n) ≡ n
unfolding decimal value limit
decimal-value zero n h = omega arith
decimal-value (suc width) n h = elim (Bool-cases (ltb n 10)) [
  | inl e ↦ rw e (omega arith)
  | inr e ↦
      let rest = decimal-value width (n / 10) (omega arith) in
      rw (e, value-append 0 (decimal width (n / 10)) ((48 + n % 10) ∷ []), rest) (omega arith)
]
