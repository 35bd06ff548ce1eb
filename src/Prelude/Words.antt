-- ===== src/Prelude/Words.antt =====
-- Rust's `u64` and `usize` arithmetic on native numbers.
use Prim.Native.Nat.{ℕ, ◌+◌, ◌-◌, ◌^◌, ◌%◌, min}
use mathlib.Core.Option.{Option}
use saeos.Prelude.Tests.{ltb, leb, keep_if}

abbrev pub u64_mod : ℕ
u64_mod = 2 ^ 64

-- `a + b` in a release build.
abbrev pub add64 : ℕ → ℕ → ℕ
add64 a b = (a + b) % u64_mod

abbrev pub checked_add : ℕ → ℕ → Option ℕ
checked_add a b = keep_if (ltb (a + b) u64_mod) (a + b)

abbrev pub checked_sub : ℕ → ℕ → Option ℕ
checked_sub a b = keep_if (leb b a) (a - b)

abbrev pub saturating_add : ℕ → ℕ → ℕ
saturating_add a b = min (a + b) (u64_mod - 1)
