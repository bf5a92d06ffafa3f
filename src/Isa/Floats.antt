-- ===== src/Isa/Floats.antt =====
-- src/sets/rv64f.cpp and src/sets/rv64d.cpp: the floating-point instructions that move, compare and
-- classify, over the bit patterns of the registers. Single and Double have the instructions; this
-- file has what they share and the C library's tests on floating-point numbers, by the layout of
-- IEEE 754. The registers are a function of their index.
pub mod Single
pub mod Double
pub mod Access
pub mod Host
pub mod Order
pub mod Laws
mod Tests
use riscv_em.Base.{
  ℕ, ◌+◌, ◌-◌, ◌*◌, ◌/◌, ◌%◌, ◌^◌, bit_and, bit_or, bit_xor, u32, ltb, leb, ◌==◌, if◌then◌else◌,
  Bool, true, false, ◌&&◌, ◌||◌, not,
}
use riscv_em.Traps.{ExecReturn}
use riscv_em.Hart.{Hart, update}
use riscv_em.Hart.Csr.{fcsr_fflags, set_fcsr_fflags}
use riscv_em.Isa.{InstructionData, next, result}

-- The bit patterns in the registers `FPR`.
abbrev pub Fpr : Type 0
Fpr = ℕ → ℕ

-- `float` and `double`.
pub data Format : Type 0 where
  single : Format
  double : Format

-- The sign bit.
unfoldable pub sign_mask : Format → ℕ
sign_mask Format.single = 0x80000000
sign_mask Format.double = 0x8000000000000000

-- The exponent of an infinity.
unfoldable pub exponent_mask : Format → ℕ
exponent_mask Format.single = 0x7f800000
exponent_mask Format.double = 0x7ff0000000000000

unfoldable pub fraction_mask : Format → ℕ
fraction_mask Format.single = 0x007fffff
fraction_mask Format.double = 0x000fffffffffffff

unfoldable pub quiet_bit : Format → ℕ
quiet_bit Format.single = 0x00400000
quiet_bit Format.double = 0x0008000000000000

unfoldable pub canonical_nan : Format → ℕ
canonical_nan Format.single = 0x7fc00000
canonical_nan Format.double = 0x7ff8000000000000

-- `std::signbit`
unfoldable pub signbit : Format → ℕ → Bool
signbit f x = leb (sign_mask f) x

-- The pattern without its sign.
unfoldable pub unsigned_part : Format → ℕ → ℕ
unsigned_part f x = x % sign_mask f

-- `std::isnan`
unfoldable pub isnan : Format → ℕ → Bool
isnan f x = ltb (exponent_mask f) (unsigned_part f x)

unfoldable pub issnan : Format → ℕ → Bool
issnan f x =
    ((bit_and x (exponent_mask f) == exponent_mask f) && not (bit_and x (fraction_mask f) == 0))
    && (bit_and x (quiet_bit f) == 0)

-- `x == 0.0f`
unfoldable pub is_zero : Format → ℕ → Bool
is_zero f x = unsigned_part f x == 0

-- `std::isless`
unfoldable pub isless : Format → ℕ → ℕ → Bool
isless f x y =
    not (isnan f x || isnan f y)
    && (if signbit f x
        then if signbit f y
          then ltb (unsigned_part f y) (unsigned_part f x)
          else not (is_zero f x && is_zero f y)
        else if signbit f y
        then false
        else ltb (unsigned_part f x) (unsigned_part f y))

-- `x == y`
unfoldable pub is_equal : Format → ℕ → ℕ → Bool
is_equal f x y = not (isnan f x || isnan f y) && ((is_zero f x && is_zero f y) || (x == y))

-- `std::copysign`
unfoldable pub copysign : Format → ℕ → ℕ → ℕ
copysign f x y = unsigned_part f x + (if signbit f y then sign_mask f else 0)

-- `-x`
unfoldable pub negated : Format → ℕ → ℕ
negated f x = if signbit f x then x - sign_mask f else x + sign_mask f

-- The sign of FSGNJX.
unfoldable pub sign_xor : Format → ℕ → ℕ → ℕ
sign_xor f x y = bit_or (bit_and x (sign_mask f - 1)) (bit_and (bit_xor x y) (sign_mask f))

-- `fflags |= (1 << 4)`
unfoldable pub raise_invalid : Hart → Hart
raise_invalid h = record h { fcsr = set_fcsr_fflags (bit_or (fcsr_fflags h.fcsr) (2 ^ 4)) h.fcsr }

unfoldable pub invalid_if : Bool → Hart → Hart
invalid_if test h = if test then raise_invalid h else h

-- `(nan1 && issnan(s1)) || (nan2 && issnan(s2))`
unfoldable pub signals : Format → ℕ → ℕ → Bool
signals f x y = (isnan f x && issnan f x) || (isnan f y && issnan f y)

-- The number that FMIN and FMAX write.
unfoldable pub minimum : Format → ℕ → ℕ → ℕ
minimum f x y =
    if isnan f x && isnan f y
    then canonical_nan f
    else if isnan f x
    then y
    else if isnan f y
    then x
    else if is_zero f x && is_zero f y
    then if signbit f x then x else y
    else if isless f x y
    then x
    else y

unfoldable pub maximum : Format → ℕ → ℕ → ℕ
maximum f x y =
    if isnan f x && isnan f y
    then canonical_nan f
    else if isnan f x
    then y
    else if isnan f y
    then x
    else if is_zero f x && is_zero f y
    then if not (signbit f x) then x else y
    else if isless f y x
    then x
    else y

pub data FpClass : Type 0 where
  fp_infinite : FpClass
  fp_nan : FpClass
  fp_normal : FpClass
  fp_subnormal : FpClass
  fp_zero : FpClass

-- `std::fpclassify`
unfoldable pub fpclassify : Format → ℕ → FpClass
fpclassify f x =
    let m = unsigned_part f x in
    if m == 0
    then FpClass.fp_zero
    else if leb m (fraction_mask f)
    then FpClass.fp_subnormal
    else if ltb m (exponent_mask f)
    then FpClass.fp_normal
    else if m == exponent_mask f
    then FpClass.fp_infinite
    else FpClass.fp_nan

-- The mask of FCLASS for a class, by the sign and by whether the quiet bit is set.
unfoldable pub class_mask : FpClass → Bool → Bool → ℕ
class_mask FpClass.fp_infinite sign quiet = if sign then 2 ^ 0 else 2 ^ 7
class_mask FpClass.fp_zero sign quiet = if sign then 2 ^ 3 else 2 ^ 4
class_mask FpClass.fp_subnormal sign quiet = if sign then 2 ^ 2 else 2 ^ 5
class_mask FpClass.fp_nan sign quiet = if quiet then 2 ^ 9 else 2 ^ 8
class_mask FpClass.fp_normal sign quiet = if sign then 2 ^ 1 else 2 ^ 6

unfoldable pub classify : Format → ℕ → ℕ
classify f x = class_mask (fpclassify f x) (signbit f x) (not (bit_and x (quiet_bit f) == 0))

abbrev pub FloatStep : Type 0
FloatStep = ExecReturn × Hart × Fpr

-- An instruction that writes the general register `rd` and goes on.
abbrev pub to_gpr : ℕ → InstructionData → Hart → Fpr → FloatStep
to_gpr v d h fpr = let (done, h') = result v d h in (done, h', fpr)

-- An instruction that writes the floating-point register `rd` and goes on.
abbrev pub to_fpr : ℕ → InstructionData → Hart → Fpr → FloatStep
to_fpr v d h fpr = (next, h, update fpr d.rd v)
