-- ===== src/Prelude/Words.antt =====
-- Go's `int` and `int64`: a value is its 64-bit pattern, a number below `2 ^ 64`; arithmetic wraps
-- and the comparisons read the pattern as a signed number.
use Prim.Native.Nat.{ℕ, ◌+◌, ◌*◌, ◌-◌, ◌%◌, ◌^◌, ◌<◌}
use mathlib.Core.Path.{◌≡◌}
use mathlib.Core.Bool.{Bool}
use native.Mathlib.Omega.{arith}
use agent_sdk_go.Prelude.Tests.{ltb, leb}

abbrev pub add64 : ℕ → ℕ → ℕ
add64 a b = (a + b) % 2 ^ 64

abbrev pub mul64 : ℕ → ℕ → ℕ
mul64 a b = a * b % 2 ^ 64

abbrev pub sub64 : ℕ → ℕ → ℕ
sub64 a b = (a + 2 ^ 64 - b % 2 ^ 64) % 2 ^ 64

-- Signed order: adding `2 ^ 63` turns it into the order of the patterns.
abbrev pub biased : ℕ → ℕ
biased a = (a + 2 ^ 63) % 2 ^ 64

abbrev pub lt64 : ℕ → ℕ → Bool
lt64 a b = ltb (biased a) (biased b)

abbrev pub le64 : ℕ → ℕ → Bool
le64 a b = leb (biased a) (biased b)

-- A pattern of a number that is not negative.
abbrev pub IsNat64 : ℕ → Type 0
IsNat64 a = a < 2 ^ 63

pub lt64_nat : (a b : ℕ) → IsNat64 a → IsNat64 b → lt64 a b ≡ ltb a b
lt64_nat a b ha hb = ground arith

pub le64_nat : (a b : ℕ) → IsNat64 a → IsNat64 b → le64 a b ≡ leb a b
le64_nat a b ha hb = ground arith

pub add64_nat : (a b : ℕ) → a + b < 2 ^ 63 → add64 a b ≡ a + b
add64_nat a b h = omega arith

pub add64_comm : (a b : ℕ) → add64 a b ≡ add64 b a
add64_comm a b = omega arith

pub add64_right_comm : (a b c : ℕ) → add64 (add64 a b) c ≡ add64 (add64 a c) b
add64_right_comm a b c = omega arith
