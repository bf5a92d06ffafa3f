-- ===== src/Isa/Bitmanip/Address.antt =====
-- src/sets/zba.cpp and src/sets/zbs.cpp: address generation and single bits. A shift by the width or
-- more is undefined in C++, and the immediate of SLLI.UW is not cut to a shift amount.
use riscv_em.Base.{
  ◌*◌, ◌/◌, ◌^◌, bit_and, bit_or, bit_xor, u32, u64, add64, not64, ltb, if◌then◌else◌,
}
use riscv_em.Traps.{ExecReturn}
use riscv_em.Hart.{Hart}
use riscv_em.Memory.{Outcome}
use riscv_em.Isa.{InstructionData, result}

pub exec_add_uw : InstructionData → Hart → ExecReturn × Hart
exec_add_uw d h = result (add64 (h.gpr d.rs2) (u32 (h.gpr d.rs1))) d h

pub exec_sh1add : InstructionData → Hart → ExecReturn × Hart
exec_sh1add d h = result (add64 (h.gpr d.rs2) (u64 (h.gpr d.rs1 * 2 ^ 1))) d h

pub exec_sh1add_uw : InstructionData → Hart → ExecReturn × Hart
exec_sh1add_uw d h = result (add64 (h.gpr d.rs2) (u32 (h.gpr d.rs1) * 2 ^ 1)) d h

pub exec_sh2add : InstructionData → Hart → ExecReturn × Hart
exec_sh2add d h = result (add64 (h.gpr d.rs2) (u64 (h.gpr d.rs1 * 2 ^ 2))) d h

pub exec_sh2add_uw : InstructionData → Hart → ExecReturn × Hart
exec_sh2add_uw d h = result (add64 (h.gpr d.rs2) (u32 (h.gpr d.rs1) * 2 ^ 2)) d h

pub exec_sh3add : InstructionData → Hart → ExecReturn × Hart
exec_sh3add d h = result (add64 (h.gpr d.rs2) (u64 (h.gpr d.rs1 * 2 ^ 3))) d h

pub exec_sh3add_uw : InstructionData → Hart → ExecReturn × Hart
exec_sh3add_uw d h = result (add64 (h.gpr d.rs2) (u32 (h.gpr d.rs1) * 2 ^ 3)) d h

pub exec_slli_uw : InstructionData → Hart → Outcome (ExecReturn × Hart)
exec_slli_uw d h =
    if ltb d.imm 64
    then Outcome.done (result (u64 (u32 (h.gpr d.rs1) * 2 ^ d.imm)) d h)
    else Outcome.undefined

pub exec_bclr : InstructionData → Hart → ExecReturn × Hart
exec_bclr d h = result (bit_and (h.gpr d.rs1) (not64 (2 ^ bit_and (h.gpr d.rs2) 0x3f))) d h

pub exec_bclri : InstructionData → Hart → ExecReturn × Hart
exec_bclri d h = result (bit_and (h.gpr d.rs1) (not64 (2 ^ bit_and d.imm 0x3f))) d h

pub exec_bext : InstructionData → Hart → ExecReturn × Hart
exec_bext d h = result (bit_and (h.gpr d.rs1 / 2 ^ bit_and (h.gpr d.rs2) 0x3f) 1) d h

pub exec_bexti : InstructionData → Hart → ExecReturn × Hart
exec_bexti d h = result (bit_and (h.gpr d.rs1 / 2 ^ bit_and d.imm 0x3f) 1) d h

pub exec_binv : InstructionData → Hart → ExecReturn × Hart
exec_binv d h = result (bit_xor (h.gpr d.rs1) (2 ^ bit_and (h.gpr d.rs2) 0x3f)) d h

pub exec_binvi : InstructionData → Hart → ExecReturn × Hart
exec_binvi d h = result (bit_xor (h.gpr d.rs1) (2 ^ bit_and d.imm 0x3f)) d h

pub exec_bset : InstructionData → Hart → ExecReturn × Hart
exec_bset d h = result (bit_or (h.gpr d.rs1) (2 ^ bit_and (h.gpr d.rs2) 0x3f)) d h

pub exec_bseti : InstructionData → Hart → ExecReturn × Hart
exec_bseti d h = result (bit_or (h.gpr d.rs1) (2 ^ bit_and d.imm 0x3f)) d h
