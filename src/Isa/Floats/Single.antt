-- ===== src/Isa/Floats/Single.antt =====
-- src/sets/rv64f.cpp: the instructions on `float` that move, compare and classify.
use riscv_em.Base.{ℕ, ◌+◌, u32, sext32, if◌then◌else◌, ◌||◌}
use riscv_em.Hart.{Hart}
use riscv_em.Isa.{InstructionData}
use riscv_em.Isa.Floats.{
  Fpr, Format, canonical_nan, isnan, issnan, isless, is_equal, copysign, negated, sign_xor,
  raise_invalid, invalid_if, signals, minimum, maximum, classify, FloatStep, to_gpr, to_fpr,
}

abbrev pub f32_in : ℕ → ℕ
f32_in reg = u32 reg

-- The upper half of the register is all ones.
unfoldable pub f32_out : ℕ → ℕ
f32_out val = 0xffffffff00000000 + val

-- A NaN becomes the canonical one and is reported; a `float` that is widened and narrowed again is
-- itself.
unfoldable pub cast_float : Hart → ℕ → ℕ × Hart
cast_float h val =
    if isnan Format.single val then (canonical_nan Format.single, raise_invalid h) else (val, h)

-- The operands.
abbrev pub first : InstructionData → Fpr → ℕ
first d fpr = f32_in (fpr d.rs1)

abbrev pub second : InstructionData → Fpr → ℕ
second d fpr = f32_in (fpr d.rs2)

-- `FPR[rd] = f32_out(cast_float(hart, res))`
unfoldable pub to_cast : ℕ → InstructionData → Hart → Fpr → FloatStep
to_cast res d h fpr = let (val, h') = cast_float h res in to_fpr (f32_out val) d h' fpr

unfoldable pub exec_fsgnj_s : InstructionData → Hart → Fpr → FloatStep
exec_fsgnj_s d h fpr = to_cast (copysign Format.single (first d fpr) (second d fpr)) d h fpr

unfoldable pub exec_fsgnjn_s : InstructionData → Hart → Fpr → FloatStep
exec_fsgnjn_s d h fpr =
    to_cast (copysign Format.single (first d fpr) (negated Format.single (second d fpr))) d h fpr

unfoldable pub exec_fsgnjx_s : InstructionData → Hart → Fpr → FloatStep
exec_fsgnjx_s d h fpr =
    to_fpr (f32_out (sign_xor Format.single (first d fpr) (second d fpr))) d h fpr

unfoldable pub exec_fmin_s : InstructionData → Hart → Fpr → FloatStep
exec_fmin_s d h fpr =
    to_fpr (f32_out (minimum Format.single (first d fpr) (second d fpr))) d
      (invalid_if (signals Format.single (first d fpr) (second d fpr)) h) fpr

unfoldable pub exec_fmax_s : InstructionData → Hart → Fpr → FloatStep
exec_fmax_s d h fpr =
    to_fpr (f32_out (maximum Format.single (first d fpr) (second d fpr))) d
      (invalid_if (signals Format.single (first d fpr) (second d fpr)) h) fpr

unfoldable pub exec_fmv_x_w : InstructionData → Hart → Fpr → FloatStep
exec_fmv_x_w d h fpr = to_gpr (sext32 (first d fpr)) d h fpr

unfoldable pub exec_fmv_w_x : InstructionData → Hart → Fpr → FloatStep
exec_fmv_w_x d h fpr = to_fpr (f32_out (u32 (h.gpr d.rs1))) d h fpr

unfoldable pub exec_feq_s : InstructionData → Hart → Fpr → FloatStep
exec_feq_s d h fpr =
    if issnan Format.single (first d fpr) || issnan Format.single (second d fpr)
    then to_gpr 0 d (raise_invalid h) fpr
    else to_gpr (if is_equal Format.single (first d fpr) (second d fpr) then 1 else 0) d h fpr

unfoldable pub exec_flt_s : InstructionData → Hart → Fpr → FloatStep
exec_flt_s d h fpr =
    if isnan Format.single (first d fpr) || isnan Format.single (second d fpr)
    then to_gpr 0 d (raise_invalid h) fpr
    else to_gpr (if isless Format.single (first d fpr) (second d fpr) then 1 else 0) d h fpr

-- `std::islessequal` is `std::isless` or equality.
unfoldable pub exec_fle_s : InstructionData → Hart → Fpr → FloatStep
exec_fle_s d h fpr =
    if isnan Format.single (first d fpr) || isnan Format.single (second d fpr)
    then to_gpr 0 d (raise_invalid h) fpr
    else to_gpr
        (if isless Format.single (first d fpr) (second d fpr)
            || is_equal Format.single (first d fpr) (second d fpr)
          then 1
          else 0)
        d h fpr

unfoldable pub exec_fclass_s : InstructionData → Hart → Fpr → FloatStep
exec_fclass_s d h fpr = to_gpr (classify Format.single (first d fpr)) d h fpr
