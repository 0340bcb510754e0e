-- ===== src/Prelude/Int.antt =====
-- Signed integers over the native numbers, and the `int64_t` among them.
use Prim.Native.Nat.{ℕ, suc, ◌+◌, ◌-◌, ◌≤◌, ◌<◌}
use mathlib.Core.Path.{◌≡◌}
use mathlib.Core.Bool.{Bool}
use native.Mathlib.Omega.{arith}
use rmw_microxrcedds.Prelude.Tests.{ltb, leb, if◌then◌else◌}

-- `negsuc n` is -(n + 1).
pub data ℤ : Type 0 where
  pos : ℕ → ℤ
  negsuc : ℕ → ℤ

abbrev pub pos_part : ℤ → ℕ
pos_part (pos n) = n
pos_part (negsuc n) = 0

abbrev pub neg_part : ℤ → ℕ
neg_part (pos n) = 0
neg_part (negsuc n) = suc n

-- a - b, as an integer.
abbrev pub sub_ℕ : ℕ → ℕ → ℤ
sub_ℕ a b = if leb b a then pos (a - b) else negsuc (b - a - 1)

infixl 65 ◌+ℤ◌
infix 50 ◌≤ℤ◌ ◌<ℤ◌
unfoldable pub ◌+ℤ◌ : ℤ → ℤ → ℤ
a +ℤ b = sub_ℕ (pos_part a + pos_part b) (neg_part a + neg_part b)

abbrev pub ◌≤ℤ◌ : ℤ → ℤ → Type 0
a ≤ℤ b = pos_part a + neg_part b ≤ pos_part b + neg_part a

abbrev pub ◌<ℤ◌ : ℤ → ℤ → Type 0
a <ℤ b = pos_part a + neg_part b < pos_part b + neg_part a

abbrev pub ltb_ℤ : ℤ → ℤ → Bool
ltb_ℤ a b = ltb (pos_part a + neg_part b) (pos_part b + neg_part a)

abbrev pub int64_max : ℤ
int64_max = pos 9223372036854775807

abbrev pub int64_min : ℤ
int64_min = negsuc 9223372036854775807

-- The values of `int64_t`.
abbrev pub IsInt64 : ℤ → Type 0
IsInt64 a = (int64_min ≤ℤ a) × (a ≤ℤ int64_max)

-- The sum of two `int64_t` values with two's complement wrap-around, which is what the usual
-- compilers' code does where C leaves a signed overflow undefined.
unfoldable pub add64 : ℤ → ℤ → ℤ
unfolding ◌+ℤ◌
add64 a b =
    let s = a +ℤ b in
    if ltb_ℤ int64_max s
    then s +ℤ negsuc 18446744073709551615
    else if ltb_ℤ s int64_min
    then s +ℤ pos 18446744073709551616
    else s

-- Where the true sum fits, the machine's sum is the true one.
pub add64-+ℤ : (a b : ℤ) → IsInt64 (a +ℤ b) → add64 a b ≡ a +ℤ b
unfolding add64
add64-+ℤ a b h = ground arith

pub add64-IsInt64 : (a b : ℤ) → IsInt64 a → IsInt64 b → IsInt64 (add64 a b)
unfolding add64
add64-IsInt64 a b ha hb = ground arith
