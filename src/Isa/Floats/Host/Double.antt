-- ===== src/Isa/Floats/Host/Double.antt =====
-- src/sets/rv64d.cpp: the arithmetic and the conversions to `double`, and the one between `double`
-- and `float`.
use riscv_em.Base.{ℕ, u32, sext32, if◌then◌else◌}
use riscv_em.Hart.{Hart, update}
use riscv_em.Isa.{next}
use riscv_em.Isa.Floats.{
  Fpr, Format, canonical_nan, isnan, issnan, negated, raise_invalid, invalid_if,
}
use riscv_em.Isa.Floats.Single.{f32_in, f32_out}
use riscv_em.Isa.Floats.Host.{Host, FloatData, HostStep, reserved_mode, rm_func, float_end}

unfoldable pub sanitize_nan : Hart → ℕ → ℕ × Hart
sanitize_nan h val =
    if isnan Format.double val then (canonical_nan Format.double, raise_invalid h) else (val, h)

module _ {E : Type 0} (host : Host E) where
  -- `RM_HANDLE`, `FLOAT_START`, the operation, `FLOAT_END` and the write of `rd`.
  unfoldable pub arithmetic_d : (E → ℕ × E) → FloatData → Hart → Fpr → E → HostStep E
  arithmetic_d op d h fpr e =
      let (error_flag, inter, e1) = rm_func host 0 d.rm h e in
      if error_flag
      then (reserved_mode d, h, fpr, e1)
      else let (res, e2) = op (host.feclearexcept e1) in
        let (val, h') = sanitize_nan (float_end host e2 h) res in
        (next, h', update fpr d.base.rd val, e2)

  unfoldable pub exec_fmadd_d : FloatData → Hart → Fpr → E → HostStep E
  exec_fmadd_d d h fpr =
      arithmetic_d (host.fma (fpr d.base.rs1) (fpr d.base.rs2) (fpr d.rs3)) d h fpr

  unfoldable pub exec_fmsub_d : FloatData → Hart → Fpr → E → HostStep E
  exec_fmsub_d d h fpr =
      arithmetic_d (host.fma (fpr d.base.rs1) (fpr d.base.rs2) (negated Format.double (fpr d.rs3)))
        d h fpr

  unfoldable pub exec_fnmadd_d : FloatData → Hart → Fpr → E → HostStep E
  exec_fnmadd_d d h fpr =
      arithmetic_d
        (host.fma (negated Format.double (fpr d.base.rs1)) (fpr d.base.rs2)
          (negated Format.double (fpr d.rs3)))
        d h fpr

  unfoldable pub exec_fnmsub_d : FloatData → Hart → Fpr → E → HostStep E
  exec_fnmsub_d d h fpr =
      arithmetic_d (host.fma (negated Format.double (fpr d.base.rs1)) (fpr d.base.rs2) (fpr d.rs3))
        d h fpr

  unfoldable pub exec_fadd_d : FloatData → Hart → Fpr → E → HostStep E
  exec_fadd_d d h fpr = arithmetic_d (host.add_double (fpr d.base.rs1) (fpr d.base.rs2)) d h fpr

  unfoldable pub exec_fsub_d : FloatData → Hart → Fpr → E → HostStep E
  exec_fsub_d d h fpr = arithmetic_d (host.sub_double (fpr d.base.rs1) (fpr d.base.rs2)) d h fpr

  unfoldable pub exec_fmul_d : FloatData → Hart → Fpr → E → HostStep E
  exec_fmul_d d h fpr = arithmetic_d (host.mul_double (fpr d.base.rs1) (fpr d.base.rs2)) d h fpr

  unfoldable pub exec_fdiv_d : FloatData → Hart → Fpr → E → HostStep E
  exec_fdiv_d d h fpr = arithmetic_d (host.div_double (fpr d.base.rs1) (fpr d.base.rs2)) d h fpr

  unfoldable pub exec_fsqrt_d : FloatData → Hart → Fpr → E → HostStep E
  exec_fsqrt_d d h fpr = arithmetic_d (host.sqrt (fpr d.base.rs1)) d h fpr

  -- A converted word, after `RM_HANDLE_VAL`.
  unfoldable pub word_to_double : ℕ × E → FloatData → Hart → Fpr → HostStep E
  word_to_double (exact, e) d h fpr =
      let (error_flag, val, e1) = rm_func host exact d.rm h e in
      if error_flag then (reserved_mode d, h, fpr, e1) else (next, h, update fpr d.base.rd val, e1)

  -- A converted doubleword: `FLOAT_START` and `FLOAT_END` stand around `RM_HANDLE_VAL`.
  unfoldable pub long_to_double : ℕ × E → FloatData → Hart → Fpr → HostStep E
  long_to_double (exact, e) d h fpr =
      let (error_flag, val, e1) = rm_func host exact d.rm h (host.feclearexcept e) in
      if error_flag
      then (reserved_mode d, h, fpr, e1)
      else (next, float_end host e1 h, update fpr d.base.rd val, e1)

  unfoldable pub exec_fcvt_d_w : FloatData → Hart → Fpr → E → HostStep E
  exec_fcvt_d_w d h fpr e = word_to_double (host.of_signed (sext32 (h.gpr d.base.rs1)) e) d h fpr

  unfoldable pub exec_fcvt_d_wu : FloatData → Hart → Fpr → E → HostStep E
  exec_fcvt_d_wu d h fpr e = word_to_double (host.of_unsigned (u32 (h.gpr d.base.rs1)) e) d h fpr

  unfoldable pub exec_fcvt_d_l : FloatData → Hart → Fpr → E → HostStep E
  exec_fcvt_d_l d h fpr e = long_to_double (host.of_signed (h.gpr d.base.rs1) e) d h fpr

  unfoldable pub exec_fcvt_d_lu : FloatData → Hart → Fpr → E → HostStep E
  exec_fcvt_d_lu d h fpr e = long_to_double (host.of_unsigned (h.gpr d.base.rs1) e) d h fpr

  unfoldable pub exec_fcvt_s_d : FloatData → Hart → Fpr → E → HostStep E
  exec_fcvt_s_d d h fpr e =
      let (error_flag, exact, e1) = rm_func host (fpr d.base.rs1) d.rm h (host.feclearexcept e) in
      if error_flag
      then (reserved_mode d, h, fpr, e1)
      else let (res_f32, e2) = host.narrow exact e1 in
        if isnan Format.single res_f32
        then (
          next,
          raise_invalid (float_end host e1 h),
          update fpr d.base.rd (f32_out (canonical_nan Format.single)),
          e2,
        )
        else (next, float_end host e1 h, update fpr d.base.rd (f32_out res_f32), e2)

  -- The signalling test is on the widened number.
  unfoldable pub exec_fcvt_d_s : FloatData → Hart → Fpr → E → HostStep E
  exec_fcvt_d_s d h fpr e =
      let src_f32 = f32_in (fpr d.base.rs1) in
      let (res_double, e1) = host.widen src_f32 e in
      if isnan Format.single src_f32
      then (let (widened, e2) = host.widen src_f32 e1 in
          (
            next,
            invalid_if (issnan Format.double widened) h,
            update fpr d.base.rd (canonical_nan Format.double),
            e2,
          ))
      else (next, h, update fpr d.base.rd res_double, e1)
