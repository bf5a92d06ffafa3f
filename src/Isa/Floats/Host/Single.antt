-- ===== src/Isa/Floats/Host/Single.antt =====
-- src/sets/rv64f.cpp: the arithmetic and the conversions to `float`. An operation is on widened
-- operands, and comes before `FLOAT_START` and before the rounding mode is set.
use riscv_em.Base.{ℕ, u32, sext32, if◌then◌else◌}
use riscv_em.Hart.{Hart, update}
use riscv_em.Isa.{next}
use riscv_em.Isa.Floats.{Fpr, Format, canonical_nan, isnan, negated, raise_invalid}
use riscv_em.Isa.Floats.Single.{f32_in, f32_out}
use riscv_em.Isa.Floats.Host.{Host, FloatData, HostStep, reserved_mode, rm_func, float_end}

module _ {E : Type 0} (host : Host E) where
  -- `cast_float` of a `double`.
  unfoldable pub cast_single : Hart → ℕ → E → ℕ × Hart × E
  cast_single h val e =
      if isnan Format.double val
      then (canonical_nan Format.single, raise_invalid h, e)
      else let (narrowed, e') = host.narrow val e in (narrowed, h, e')

  -- `(val) = static_cast<float>(inter)` on a `double`.
  unfoldable pub through_float : ℕ → E → ℕ × E
  through_float inter e = let (narrowed, e') = host.narrow inter e in host.widen narrowed e'

  -- `FLOAT_START`, `RM_HANDLE`, `FLOAT_END` and the write of `rd`, for a computed `res`.
  unfoldable pub rounded_s : ℕ × E → FloatData → Hart → Fpr → HostStep E
  rounded_s (res, e) d h fpr =
      let (error_flag, inter, e1) = rm_func host res d.rm h (host.feclearexcept e) in
      if error_flag
      then (reserved_mode d, h, fpr, e1)
      else let (val, e2) = through_float inter e1 in
        let (narrowed, h', e3) = cast_single (float_end host e2 h) val e2 in
        (next, h', update fpr d.base.rd (f32_out narrowed), e3)

  -- Two and three operands as `double`.
  unfoldable pub operands2 : (ℕ → ℕ → E → ℕ × E) → FloatData → Fpr → E → ℕ × E
  operands2 op d fpr e =
      let (s1, e1) = host.widen (f32_in (fpr d.base.rs1)) e in
      let (s2, e2) = host.widen (f32_in (fpr d.base.rs2)) e1 in op s1 s2 e2

  unfoldable pub operands3 : (ℕ → ℕ → ℕ → E → ℕ × E) → FloatData → Fpr → E → ℕ × E
  operands3 op d fpr e =
      let (s1, e1) = host.widen (f32_in (fpr d.base.rs1)) e in
      let (s2, e2) = host.widen (f32_in (fpr d.base.rs2)) e1 in
      let (s3, e3) = host.widen (f32_in (fpr d.rs3)) e2 in op s1 s2 s3 e3

  -- The product, then the sum or the difference.
  unfoldable pub mul_add : ℕ → ℕ → ℕ → E → ℕ × E
  mul_add s1 s2 s3 e = let (product, e') = host.mul_double s1 s2 e in host.add_double product s3 e'

  unfoldable pub mul_sub : ℕ → ℕ → ℕ → E → ℕ × E
  mul_sub s1 s2 s3 e = let (product, e') = host.mul_double s1 s2 e in host.sub_double product s3 e'

  unfoldable pub exec_fmadd_s : FloatData → Hart → Fpr → E → HostStep E
  exec_fmadd_s d h fpr e = rounded_s (operands3 mul_add d fpr e) d h fpr

  unfoldable pub exec_fmsub_s : FloatData → Hart → Fpr → E → HostStep E
  exec_fmsub_s d h fpr e = rounded_s (operands3 mul_sub d fpr e) d h fpr

  unfoldable pub exec_fnmadd_s : FloatData → Hart → Fpr → E → HostStep E
  exec_fnmadd_s d h fpr e =
      rounded_s (operands3 (λ s1. mul_sub (negated Format.double s1)) d fpr e) d h fpr

  unfoldable pub exec_fnmsub_s : FloatData → Hart → Fpr → E → HostStep E
  exec_fnmsub_s d h fpr e =
      rounded_s (operands3 (λ s1. mul_add (negated Format.double s1)) d fpr e) d h fpr

  unfoldable pub exec_fadd_s : FloatData → Hart → Fpr → E → HostStep E
  exec_fadd_s d h fpr e = rounded_s (operands2 host.add_double d fpr e) d h fpr

  unfoldable pub exec_fsub_s : FloatData → Hart → Fpr → E → HostStep E
  exec_fsub_s d h fpr e = rounded_s (operands2 host.sub_double d fpr e) d h fpr

  unfoldable pub exec_fmul_s : FloatData → Hart → Fpr → E → HostStep E
  exec_fmul_s d h fpr e = rounded_s (operands2 host.mul_double d fpr e) d h fpr

  unfoldable pub exec_fdiv_s : FloatData → Hart → Fpr → E → HostStep E
  exec_fdiv_s d h fpr e = rounded_s (operands2 host.div_double d fpr e) d h fpr

  unfoldable pub exec_fsqrt_s : FloatData → Hart → Fpr → E → HostStep E
  exec_fsqrt_s d h fpr e = rounded_s (host.sqrt_single (f32_in (fpr d.base.rs1)) e) d h fpr

  -- A converted integer: `FLOAT_START`, `RM_HANDLE`, `FLOAT_END`, and the narrowed number.
  unfoldable pub integer_to_single : ℕ × E → FloatData → Hart → Fpr → HostStep E
  integer_to_single (exact, e) d h fpr =
      let (error_flag, inter, e1) = rm_func host exact d.rm h (host.feclearexcept e) in
      if error_flag
      then (reserved_mode d, h, fpr, e1)
      else let (val, e2) = through_float inter e1 in
        let (narrowed, e3) = host.narrow val e2 in
        (next, float_end host e2 h, update fpr d.base.rd (f32_out narrowed), e3)

  unfoldable pub exec_fcvt_s_w : FloatData → Hart → Fpr → E → HostStep E
  exec_fcvt_s_w d h fpr e = integer_to_single (host.of_signed (sext32 (h.gpr d.base.rs1)) e) d h fpr

  unfoldable pub exec_fcvt_s_wu : FloatData → Hart → Fpr → E → HostStep E
  exec_fcvt_s_wu d h fpr e = integer_to_single (host.of_unsigned (u32 (h.gpr d.base.rs1)) e) d h fpr

  unfoldable pub exec_fcvt_s_l : FloatData → Hart → Fpr → E → HostStep E
  exec_fcvt_s_l d h fpr e = integer_to_single (host.of_signed (h.gpr d.base.rs1) e) d h fpr

  unfoldable pub exec_fcvt_s_lu : FloatData → Hart → Fpr → E → HostStep E
  exec_fcvt_s_lu d h fpr e = integer_to_single (host.of_unsigned (h.gpr d.base.rs1) e) d h fpr
