-- ===== src/Prelude/Words.antt =====
-- Unsigned machine words as native numbers: wrap-around written out.
use Prim.Native.Nat.{ℕ, ◌+◌, ◌-◌, ◌/◌, ◌%◌, ◌^◌}
use mathlib.Core.Bool.{Bool}
use usable_lib.Prelude.Tests.{◌==◌}

-- `uint32_t` sum and difference
abbrev pub add32 : ℕ → ℕ → ℕ
add32 a b = (a + b) % 2 ^ 32

abbrev pub sub32 : ℕ → ℕ → ℕ
sub32 a b = (a + 2 ^ 32 - b) % 2 ^ 32

-- `uint64_t`, `size_t` and `uintptr_t` sum and difference
abbrev pub add64 : ℕ → ℕ → ℕ
add64 a b = (a + b) % 2 ^ 64

abbrev pub sub64 : ℕ → ℕ → ℕ
sub64 a b = (a + 2 ^ 64 - b) % 2 ^ 64

-- `w & bit`, for `bit` a power of two
abbrev pub has_bit : ℕ → ℕ → Bool
has_bit w bit = w / bit % 2 == 1
