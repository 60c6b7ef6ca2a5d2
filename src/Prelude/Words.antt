-- ===== src/Prelude/Words.antt =====
-- Fixed-width unsigned integers: plain numbers whose arithmetic wraps.
use Prim.Native.Nat.{ℕ, ◌+◌, ◌%◌, ◌<◌}
use mathlib.Core.Path.{◌≡◌}
use native.Mathlib.Omega.{arith}

abbrev pub u64_mod : ℕ
u64_mod = 18446744073709551616

abbrev pub u32_mod : ℕ
u32_mod = 4294967296

abbrev pub u64 : ℕ → ℕ
u64 n = n % 18446744073709551616

abbrev pub u32 : ℕ → ℕ
u32 n = n % 4294967296

pub u64_of_lt : (n : ℕ) → n < u64_mod → u64 n ≡ n
u64_of_lt n h = omega arith

pub u64-lt : (n : ℕ) → u64 n < u64_mod
u64-lt n = omega arith

pub u64-u64-add : (a b : ℕ) → u64 (u64 a + b) ≡ u64 (a + b)
u64-u64-add a b = omega arith
