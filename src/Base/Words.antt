-- ===== src/Base/Words.antt =====
-- C integers. An `int` or `unsigned int` is kept as its 32-bit pattern, a `long` or `size_t` as its
-- 64-bit pattern; `signed32` and `signed64` are the numbers that the patterns stand for.
use Prim.Native.Nat.{ℕ, ◌+◌, ◌-◌, ◌%◌, ◌^◌, ◌<◌}
use mathlib.Core.Path.{◌≡◌}
use native.Mathlib.Omega.{arith}
use linux_kernel_programming.Base.Tests.{ltb, if◌then◌else◌}

-- `negsuc n` is -(n + 1).
pub data ℤ : Type 0 where
  pos : ℕ → ℤ
  negsuc : ℕ → ℤ

abbrev pub u32_mod : ℕ
u32_mod = 2 ^ 32

abbrev pub u64_mod : ℕ
u64_mod = 2 ^ 64

abbrev pub signed32 : ℕ → ℤ
signed32 w = if ltb w (2 ^ 31) then pos w else negsuc (2 ^ 32 - w - 1)

abbrev pub add32 : ℕ → ℕ → ℕ
add32 a b = (a + b) % u32_mod

abbrev pub sub32 : ℕ → ℕ → ℕ
sub32 a b = (a + u32_mod - b) % u32_mod

-- The conversion of a `size_t` to `int`, and of that to `ssize_t`.
abbrev pub int_of_size : ℕ → ℤ
int_of_size n = signed32 (n % u32_mod)

-- Below 2 ^ 31 the conversion keeps the value.
pub int_of_size-small : (n : ℕ) → n < 2 ^ 31 → int_of_size n ≡ pos n
int_of_size-small n h = ground arith
