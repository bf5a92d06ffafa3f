-- ===== src/Base/Words.antt =====
-- Fixed-width unsigned words as native numbers, with the wrap-around written out.
use Prim.Native.Nat.{ℕ, ◌+◌, ◌-◌, ◌%◌, ◌^◌}
use mathlib.Core.Bool.{Bool, true, false}
use riscv_em.Base.Tests.{ltb, ◌==◌, if◌then◌else◌}

abbrev pub u8 : ℕ → ℕ
u8 n = n % 2 ^ 8

abbrev pub u16 : ℕ → ℕ
u16 n = n % 2 ^ 16

abbrev pub u32 : ℕ → ℕ
u32 n = n % 2 ^ 32

abbrev pub u64 : ℕ → ℕ
u64 n = n % 2 ^ 64

-- `~x` on a word of the width that is named.
abbrev pub not8 : ℕ → ℕ
not8 x = 2 ^ 8 - 1 - x

abbrev pub not32 : ℕ → ℕ
not32 x = 2 ^ 32 - 1 - x

abbrev pub not64 : ℕ → ℕ
not64 x = 2 ^ 64 - 1 - x

-- `(x + y)` and `(x - y)` on `uint64_t`.
abbrev pub add64 : ℕ → ℕ → ℕ
add64 x y = u64 (x + y)

abbrev pub sub64 : ℕ → ℕ → ℕ
sub64 x y = u64 (x + 2 ^ 64 - y)

-- A number as a condition.
abbrev pub nonzero : ℕ → Bool
nonzero x = if x == 0 then false else true

abbrev pub of_bool : Bool → ℕ
of_bool true = 1
of_bool false = 0

-- `(int64_t)(int32_t)x` as a 64-bit pattern.
abbrev pub sext32 : ℕ → ℕ
sext32 x = if ltb (u32 x) (2 ^ 31) then u32 x else u32 x + (2 ^ 64 - 2 ^ 32)
