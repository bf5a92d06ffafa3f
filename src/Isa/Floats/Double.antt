-- ===== src/Isa/Floats/Double.antt =====
-- src/sets/rv64d.cpp: the instructions on `double` that move, compare and classify.
use riscv_em.Base.{if◌then◌else◌, ◌||◌}
use riscv_em.Hart.{Hart}
use riscv_em.Isa.{InstructionData}
use riscv_em.Isa.Floats.{
  Fpr, Format, isnan, issnan, isless, is_equal, copysign, negated, sign_xor, raise_invalid,
  invalid_if, signals, minimum, maximum, classify, FloatStep, to_gpr, to_fpr,
}

unfoldable pub exec_fsgnj_d : InstructionData → Hart → Fpr → FloatStep
exec_fsgnj_d d h fpr = to_fpr (copysign Format.double (fpr d.rs1) (fpr d.rs2)) d h fpr

unfoldable pub exec_fsgnjn_d : InstructionData → Hart → Fpr → FloatStep
exec_fsgnjn_d d h fpr =
    to_fpr (copysign Format.double (fpr d.rs1) (negated Format.double (fpr d.rs2))) d h fpr

unfoldable pub exec_fsgnjx_d : InstructionData → Hart → Fpr → FloatStep
exec_fsgnjx_d d h fpr = to_fpr (sign_xor Format.double (fpr d.rs1) (fpr d.rs2)) d h fpr

unfoldable pub exec_fmin_d : InstructionData → Hart → Fpr → FloatStep
exec_fmin_d d h fpr =
    to_fpr (minimum Format.double (fpr d.rs1) (fpr d.rs2)) d
      (invalid_if (signals Format.double (fpr d.rs1) (fpr d.rs2)) h) fpr

unfoldable pub exec_fmax_d : InstructionData → Hart → Fpr → FloatStep
exec_fmax_d d h fpr =
    to_fpr (maximum Format.double (fpr d.rs1) (fpr d.rs2)) d
      (invalid_if (signals Format.double (fpr d.rs1) (fpr d.rs2)) h) fpr

unfoldable pub exec_fmv_x_d : InstructionData → Hart → Fpr → FloatStep
exec_fmv_x_d d h fpr = to_gpr (fpr d.rs1) d h fpr

unfoldable pub exec_fmv_d_x : InstructionData → Hart → Fpr → FloatStep
exec_fmv_d_x d h fpr = to_fpr (h.gpr d.rs1) d h fpr

unfoldable pub exec_feq_d : InstructionData → Hart → Fpr → FloatStep
exec_feq_d d h fpr =
    if issnan Format.double (fpr d.rs1) || issnan Format.double (fpr d.rs2)
    then to_gpr 0 d (raise_invalid h) fpr
    else to_gpr (if is_equal Format.double (fpr d.rs1) (fpr d.rs2) then 1 else 0) d h fpr

unfoldable pub exec_flt_d : InstructionData → Hart → Fpr → FloatStep
exec_flt_d d h fpr =
    if isnan Format.double (fpr d.rs1) || isnan Format.double (fpr d.rs2)
    then to_gpr 0 d (raise_invalid h) fpr
    else to_gpr (if isless Format.double (fpr d.rs1) (fpr d.rs2) then 1 else 0) d h fpr

-- `std::islessequal` is `std::isless` or equality.
unfoldable pub exec_fle_d : InstructionData → Hart → Fpr → FloatStep
exec_fle_d d h fpr =
    if isnan Format.double (fpr d.rs1) || isnan Format.double (fpr d.rs2)
    then to_gpr 0 d (raise_invalid h) fpr
    else to_gpr
        (if isless Format.double (fpr d.rs1) (fpr d.rs2)
            || is_equal Format.double (fpr d.rs1) (fpr d.rs2)
          then 1
          else 0)
        d h fpr

unfoldable pub exec_fclass_d : InstructionData → Hart → Fpr → FloatStep
exec_fclass_d d h fpr = to_gpr (classify Format.double (fpr d.rs1)) d h fpr
