-- ===== src/Common/Words.antt =====
-- Unsigned machine words: every sum and difference of the source wraps at its width.
use Prim.Native.Nat.{ℕ, ◌+◌, ◌-◌, ◌%◌, ◌^◌, ◌≤◌, ◌<◌}
use mathlib.Core.Path.{◌≡◌}
use native.Mathlib.Omega.{arith}

-- `uint64_t` (and `size_t`) addition and subtraction.
unfoldable pub add64 : ℕ → ℕ → ℕ
add64 a b = (a + b) % 2 ^ 64

unfoldable pub sub64 : ℕ → ℕ → ℕ
sub64 a b = (a + 2 ^ 64 - b) % 2 ^ 64

-- `uint32_t` addition, truncation and subtraction.
unfoldable pub add32 : ℕ → ℕ → ℕ
add32 a b = (a + b) % 2 ^ 32

unfoldable pub to_u32 : ℕ → ℕ
to_u32 a = a % 2 ^ 32

unfoldable pub sub32 : ℕ → ℕ → ℕ
sub32 a b = (a + 2 ^ 32 - b) % 2 ^ 32

-- `std::numeric_limits<uint64_t>::max()`.
abbrev pub max64 : ℕ
max64 = 2 ^ 64 - 1

pub add64_lem : (a b : ℕ) → a + b < 2 ^ 64 → add64 a b ≡ a + b
unfolding add64
add64_lem a b h = omega arith

pub sub64_lem : (a b : ℕ) → b ≤ a → a < 2 ^ 64 → sub64 a b ≡ a - b
unfolding sub64
sub64_lem a b h k = omega arith

pub add64-lt : (a b : ℕ) → add64 a b < 2 ^ 64
unfolding add64
add64-lt a b = omega arith

pub add32_lem : (a b : ℕ) → a + b < 2 ^ 32 → add32 a b ≡ a + b
unfolding add32
add32_lem a b h = omega arith

pub sub32_lem : (a b : ℕ) → b ≤ a → a < 2 ^ 32 → sub32 a b ≡ a - b
unfolding sub32
sub32_lem a b h k = omega arith

pub to_u32_lem : (a : ℕ) → a < 2 ^ 32 → to_u32 a ≡ a
unfolding to_u32
to_u32_lem a h = omega arith

pub ruleset words = (arith, add64_lem, sub64_lem, add64-lt, add32_lem)
