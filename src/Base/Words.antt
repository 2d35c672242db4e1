-- ===== src/Base/Words.antt =====
-- Go's int64 as a bit pattern below 2 ^ 64: sums wrap around, and a comparison reads the sign.
use Prim.Native.Nat.{ℕ, ◌+◌, ◌-◌, ◌*◌, ◌/◌, ◌%◌, ◌^◌, ◌<◌}
use mathlib.Core.Path.{◌≡◌}
use mathlib.Core.Bool.{Bool, false}
use native.Mathlib.Omega.{arith}
use videocms.Base.Tests.{ltb, if◌then◌else◌}

-- One more than the largest int64.
abbrev pub int64_limit : ℕ
int64_limit = 2 ^ 63

unfoldable pub add64 : ℕ → ℕ → ℕ
add64 a b = (a + b) % 2 ^ 64

unfoldable pub mul64 : ℕ → ℕ → ℕ
mul64 a b = (a * b) % 2 ^ 64

-- The quotient of a signed number by a positive one, towards 0. Go panics at a divisor of 0.
unfoldable pub div64 : ℕ → ℕ → ℕ
div64 a b = if ltb a int64_limit then a / b else (2 ^ 64 - (2 ^ 64 - a) / b) % 2 ^ 64

-- b < a, as signed numbers.
unfoldable pub gt64 : ℕ → ℕ → Bool
gt64 a b = ltb ((b + 2 ^ 63) % 2 ^ 64) ((a + 2 ^ 63) % 2 ^ 64)

-- Where the sum does not overflow, the test is that of numbers.
pub gt64_small : (a b : ℕ) → a < int64_limit → b < int64_limit → gt64 a b ≡ ltb b a
unfolding gt64
gt64_small a b ha hb = ground arith

-- Where it does, the sum is a negative number.
pub gt64_wrapped :
    (a b c : ℕ)
    → a < int64_limit
    → b < int64_limit
    → c < int64_limit
    → int64_limit < a + b + 1
    → gt64 (add64 a b) c ≡ false
unfolding gt64 add64
gt64_wrapped a b c ha hb hc h = ground arith

pub add64_small : (a b : ℕ) → a + b < int64_limit → add64 a b ≡ a + b
unfolding add64
add64_small a b h = omega arith

pub mul64_small : (a b : ℕ) → a * b < int64_limit → mul64 a b ≡ a * b
unfolding mul64
mul64_small a b h = omega arith

pub div64_small : (a b : ℕ) → a < int64_limit → div64 a b ≡ a / b
unfolding div64
div64_small a b h = ground arith
