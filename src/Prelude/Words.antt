-- ===== src/Prelude/Words.antt =====
-- Machine words and their bounds.
use Prim.Native.Nat.{ℕ, ◌+◌, ◌^◌, ◌%◌, ◌<◌}
use native.Mathlib.Omega.{arith}

-- An object id counter is a `uint16_t`, and `x++` wraps.
abbrev pub uint16_mod : ℕ
uint16_mod = 2 ^ 16

abbrev pub increment16 : ℕ → ℕ
increment16 x = (x + 1) % uint16_mod

pub increment16-lt : (x : ℕ) → increment16 x < uint16_mod
increment16-lt x = omega arith
