-- ===== src/Prelude/Words.antt =====
-- `uint64_t`, `uint32_t` and `uint16_t` arithmetic, with its wrap-around.
use Prim.Native.Nat.{ℕ, ◌+◌, ◌-◌, ◌*◌, ◌%◌, ◌^◌, ◌≤◌, ◌<◌}
use mathlib.Core.Path.{◌≡◌}
use native.Mathlib.Nat.{mod-eq_of_lt}
use native.Mathlib.Omega.{arith}

abbrev pub word64 : ℕ
word64 = 2 ^ 64

abbrev pub word32 : ℕ
word32 = 2 ^ 32

abbrev pub word16 : ℕ
word16 = 2 ^ 16

unfoldable pub add64 : ℕ → ℕ → ℕ
add64 a b = (a + b) % word64

unfoldable pub sub64 : ℕ → ℕ → ℕ
sub64 a b = (a + word64 - b) % word64

unfoldable pub mul64 : ℕ → ℕ → ℕ
mul64 a b = (a * b) % word64

unfoldable pub add32 : ℕ → ℕ → ℕ
add32 a b = (a + b) % word32

unfoldable pub sub32 : ℕ → ℕ → ℕ
sub32 a b = (a + word32 - b) % word32

-- `static_cast<uint16_t>(1U << k)` and `static_cast<uint16_t>((1U << k) - 1U)`, for `k < 32`.
unfoldable pub bit16 : ℕ → ℕ
bit16 k = 2 ^ k % word32 % word16

unfoldable pub low_mask16 : ℕ → ℕ
low_mask16 k = sub32 (2 ^ k % word32) 1 % word16

pub add64_small : (a b : ℕ) → a + b < word64 → add64 a b ≡ a + b
unfolding add64
add64_small a b h = omega arith

pub sub64_small : (a b : ℕ) → b ≤ a → a < word64 → sub64 a b ≡ a - b
unfolding sub64
sub64_small a b h k = omega arith

pub mul64_small : (a b : ℕ) → a * b < word64 → mul64 a b ≡ a * b
unfolding mul64
mul64_small a b h = mod-eq_of_lt h

pub add32_small : (a b : ℕ) → a + b < word32 → add32 a b ≡ a + b
unfolding add32
add32_small a b h = omega arith

pub sub32_small : (a b : ℕ) → b ≤ a → a < word32 → sub32 a b ≡ a - b
unfolding sub32
sub32_small a b h k = omega arith

pub ruleset words = (arith, add64_small, sub64_small, mul64_small, add32_small, sub32_small)
