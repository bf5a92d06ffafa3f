-- ===== src/Isa/Floats/Host/Integers.antt =====
-- src/sets/rv64f.cpp and rv64d.cpp: the conversions of floating-point numbers to integers. The
-- compiler computes the bounds of `finalize_fcvt` as numbers of `double`; they are powers of two.
use riscv_em.Base.{
  ℕ, ◌-◌, ◌%◌, ◌^◌, bit_or, sext32, ◌==◌, if◌then◌else◌, Bool, true, false, not, ◌&&◌, ◌||◌,
}
use riscv_em.Hart.{Hart, set_gpr}
use riscv_em.Hart.Csr.{fcsr_fflags, set_fcsr_fflags}
use riscv_em.Isa.{next, negative}
use riscv_em.Isa.Floats.{
  Fpr, Format, isnan, isless, is_equal, signbit, unsigned_part, exponent_mask,
}
use riscv_em.Isa.Floats.Single.{f32_in}
use riscv_em.Isa.Floats.Host.{Host, FloatData, HostStep, reserved_mode, rm_func}

-- `fflags = (fflags | (1 << 4)) & ~(1 << 0)`
unfoldable pub invalid_exact : Hart → Hart
invalid_exact h =
    let flags = bit_or (fcsr_fflags h.fcsr) (2 ^ 4) in
    record h { fcsr = set_fcsr_fflags (flags - flags % 2) h.fcsr }

-- `std::isinf`
unfoldable pub isinf : Format → ℕ → Bool
isinf f x = unsigned_part f x == exponent_mask f

-- The type that is converted to: its bounds as 64-bit patterns, and as numbers of `double` the lower
-- bound and the upper bound plus one.
pub record Target : Type 0 where
  pub is_unsigned : Bool
  pub min_value : ℕ
  pub max_value : ℕ
  pub lowest : ℕ
  pub past_highest : ℕ

abbrev pub int32 : Target
int32 = record {
  is_unsigned = false;
  min_value = 2 ^ 64 - 2 ^ 31;
  max_value = 2 ^ 31 - 1;
  lowest = 0xc1e0000000000000;
  past_highest = 0x41e0000000000000;
}

abbrev pub uint32 : Target
uint32 = record {
  is_unsigned = true;
  min_value = 0;
  max_value = 2 ^ 32 - 1;
  lowest = 0;
  past_highest = 0x41f0000000000000;
}

abbrev pub int64 : Target
int64 = record {
  is_unsigned = false;
  min_value = 2 ^ 63;
  max_value = 2 ^ 63 - 1;
  lowest = 0xc3e0000000000000;
  past_highest = 0x43e0000000000000;
}

abbrev pub uint64 : Target
uint64 = record {
  is_unsigned = true;
  min_value = 0;
  max_value = 2 ^ 64 - 1;
  lowest = 0;
  past_highest = 0x43f0000000000000;
}

-- `x <= y` and `x >= y` on `double`.
unfoldable pub at_most : ℕ → ℕ → Bool
at_most x y = isless Format.double x y || is_equal Format.double x y

unfoldable pub above : Target → Format → ℕ → ℕ → Bool
above t f src exact = (isinf f src && not (signbit f src)) || at_most t.past_highest exact

-- `exact <= -1.0 || (rounded < 0 && rounded != INT64_MIN)` for an unsigned type.
unfoldable pub below : Target → Format → ℕ → ℕ → ℕ → Bool
below t f src exact rounded =
    if t.is_unsigned
    then at_most exact 0xbff0000000000000 || (negative 63 rounded && not (rounded == 2 ^ 63))
    else (isinf f src && signbit f src) || isless Format.double exact t.lowest

module _ {E : Type 0} (host : Host E) where
  -- A rounded number in range: NX where the rounding changed it.
  unfoldable pub in_range : ℕ → ℕ → Hart → E → ℕ × Hart × E
  in_range exact rounded h e =
      let (back, e') = host.of_signed rounded e in
      if not (is_equal Format.double back exact)
      then (rounded, record h { fcsr = set_fcsr_fflags (bit_or (fcsr_fflags h.fcsr) 1) h.fcsr }, e')
      else (rounded, h, e')

  unfoldable pub finalize_fcvt : Target → Format → ℕ → ℕ → ℕ → Hart → E → ℕ × Hart × E
  finalize_fcvt t f src exact rounded h e =
      if isnan f src
      then (t.max_value, invalid_exact h, e)
      else if t.is_unsigned && above t f src exact
      then (t.max_value, invalid_exact h, e)
      else if below t f src exact rounded
      then (t.min_value, invalid_exact h, e)
      else if above t f src exact
      then (t.max_value, invalid_exact h, e)
      else in_range exact rounded h e

  -- The rounding mode, `std::llrint`, `finalize_fcvt` and the write of `rd`.
  unfoldable pub to_integer :
      Target → Format → (ℕ → ℕ) → ℕ → ℕ → FloatData → Hart → Fpr → E → HostStep E
  to_integer t f cast src exact d h fpr e =
      let (is_error, intermediate, e1) = rm_func host exact d.rm h e in
      if is_error
      then (reserved_mode d, h, fpr, e1)
      else let (rounded, e2) = host.llrint intermediate e1 in
        let (res, h', e3) = finalize_fcvt t f src exact rounded h e2 in
        (next, set_gpr d.base.rd (cast res) h', fpr, e3)

  -- From `float`, which is widened first.
  unfoldable pub single_to_integer : Target → (ℕ → ℕ) → FloatData → Hart → Fpr → E → HostStep E
  single_to_integer t cast d h fpr e =
      let src = f32_in (fpr d.base.rs1) in
      let (exact, e') = host.widen src e in to_integer t Format.single cast src exact d h fpr e'

  unfoldable pub double_to_integer : Target → (ℕ → ℕ) → FloatData → Hart → Fpr → E → HostStep E
  double_to_integer t cast d h fpr =
      let src = fpr d.base.rs1 in to_integer t Format.double cast src src d h fpr

  unfoldable pub exec_fcvt_w_s : FloatData → Hart → Fpr → E → HostStep E
  exec_fcvt_w_s = single_to_integer int32 (λ res. sext32 res)

  unfoldable pub exec_fcvt_wu_s : FloatData → Hart → Fpr → E → HostStep E
  exec_fcvt_wu_s = single_to_integer uint32 (λ res. sext32 res)

  unfoldable pub exec_fcvt_l_s : FloatData → Hart → Fpr → E → HostStep E
  exec_fcvt_l_s = single_to_integer int64 (λ res. res)

  unfoldable pub exec_fcvt_lu_s : FloatData → Hart → Fpr → E → HostStep E
  exec_fcvt_lu_s = single_to_integer uint64 (λ res. res)

  unfoldable pub exec_fcvt_w_d : FloatData → Hart → Fpr → E → HostStep E
  exec_fcvt_w_d = double_to_integer int32 (λ res. sext32 res)

  unfoldable pub exec_fcvt_wu_d : FloatData → Hart → Fpr → E → HostStep E
  exec_fcvt_wu_d = double_to_integer uint32 (λ res. sext32 res)

  unfoldable pub exec_fcvt_l_d : FloatData → Hart → Fpr → E → HostStep E
  exec_fcvt_l_d = double_to_integer int64 (λ res. res)

  unfoldable pub exec_fcvt_lu_d : FloatData → Hart → Fpr → E → HostStep E
  exec_fcvt_lu_d = double_to_integer uint64 (λ res. res)
