-- ===== src/Isa/Integer.antt =====
-- The register instructions of src/sets/rv64i.cpp. An immediate that is a shift amount has been
-- decoded by `shamt` or `shamt64`, so it is below the width.
use riscv_em.Base.{
  ◌+◌, ◌-◌, ◌*◌, ◌/◌, ◌^◌, bit_and, bit_or, bit_xor, u32, u64, add64, sub64, sext32, of_bool, ltb,
}
use riscv_em.Traps.{ExecReturn}
use riscv_em.Hart.{Hart}
use riscv_em.Isa.{InstructionData, next, result, slt64, shift_right_signed}

pub exec_addw : InstructionData → Hart → ExecReturn × Hart
exec_addw d h = result (sext32 (u32 (h.gpr d.rs1) + u32 (h.gpr d.rs2))) d h

pub exec_subw : InstructionData → Hart → ExecReturn × Hart
exec_subw d h = result (sext32 (u32 (h.gpr d.rs1) + 2 ^ 32 - u32 (h.gpr d.rs2))) d h

pub exec_sllw : InstructionData → Hart → ExecReturn × Hart
exec_sllw d h = result (sext32 (u32 (h.gpr d.rs1) * 2 ^ bit_and (u32 (h.gpr d.rs2)) 0x1f)) d h

pub exec_srlw : InstructionData → Hart → ExecReturn × Hart
exec_srlw d h = result (sext32 (u32 (h.gpr d.rs1) / 2 ^ bit_and (u32 (h.gpr d.rs2)) 0x1f)) d h

pub exec_sraw : InstructionData → Hart → ExecReturn × Hart
exec_sraw d h =
    result (sext32 (shift_right_signed 31 (u32 (h.gpr d.rs1)) (bit_and (u32 (h.gpr d.rs2)) 0x1f))) d
      h

pub exec_addiw : InstructionData → Hart → ExecReturn × Hart
exec_addiw d h = result (sext32 (add64 (u32 (h.gpr d.rs1)) d.imm)) d h

pub exec_slliw : InstructionData → Hart → ExecReturn × Hart
exec_slliw d h = result (sext32 (u32 (h.gpr d.rs1) * 2 ^ d.imm)) d h

pub exec_srliw : InstructionData → Hart → ExecReturn × Hart
exec_srliw d h = result (sext32 (u32 (h.gpr d.rs1) / 2 ^ d.imm)) d h

pub exec_sraiw : InstructionData → Hart → ExecReturn × Hart
exec_sraiw d h = result (sext32 (shift_right_signed 31 (u32 (h.gpr d.rs1)) d.imm)) d h

pub exec_add : InstructionData → Hart → ExecReturn × Hart
exec_add d h = result (add64 (h.gpr d.rs1) (h.gpr d.rs2)) d h

pub exec_sub : InstructionData → Hart → ExecReturn × Hart
exec_sub d h = result (sub64 (h.gpr d.rs1) (h.gpr d.rs2)) d h

pub exec_xor : InstructionData → Hart → ExecReturn × Hart
exec_xor d h = result (bit_xor (h.gpr d.rs1) (h.gpr d.rs2)) d h

pub exec_or : InstructionData → Hart → ExecReturn × Hart
exec_or d h = result (bit_or (h.gpr d.rs1) (h.gpr d.rs2)) d h

pub exec_and : InstructionData → Hart → ExecReturn × Hart
exec_and d h = result (bit_and (h.gpr d.rs1) (h.gpr d.rs2)) d h

pub exec_sll : InstructionData → Hart → ExecReturn × Hart
exec_sll d h = result (u64 (h.gpr d.rs1 * 2 ^ bit_and (h.gpr d.rs2) 0x3f)) d h

pub exec_srl : InstructionData → Hart → ExecReturn × Hart
exec_srl d h = result (h.gpr d.rs1 / 2 ^ bit_and (h.gpr d.rs2) 0x3f) d h

pub exec_sra : InstructionData → Hart → ExecReturn × Hart
exec_sra d h = result (shift_right_signed 63 (h.gpr d.rs1) (bit_and (h.gpr d.rs2) 0x3f)) d h

pub exec_slt : InstructionData → Hart → ExecReturn × Hart
exec_slt d h = result (of_bool (slt64 (h.gpr d.rs1) (h.gpr d.rs2))) d h

pub exec_sltu : InstructionData → Hart → ExecReturn × Hart
exec_sltu d h = result (of_bool (ltb (h.gpr d.rs1) (h.gpr d.rs2))) d h

pub exec_addi : InstructionData → Hart → ExecReturn × Hart
exec_addi d h = result (add64 (h.gpr d.rs1) d.imm) d h

pub exec_xori : InstructionData → Hart → ExecReturn × Hart
exec_xori d h = result (bit_xor (h.gpr d.rs1) d.imm) d h

pub exec_ori : InstructionData → Hart → ExecReturn × Hart
exec_ori d h = result (bit_or (h.gpr d.rs1) d.imm) d h

pub exec_andi : InstructionData → Hart → ExecReturn × Hart
exec_andi d h = result (bit_and (h.gpr d.rs1) d.imm) d h

pub exec_slli : InstructionData → Hart → ExecReturn × Hart
exec_slli d h = result (u64 (h.gpr d.rs1 * 2 ^ d.imm)) d h

pub exec_srli : InstructionData → Hart → ExecReturn × Hart
exec_srli d h = result (h.gpr d.rs1 / 2 ^ d.imm) d h

pub exec_srai : InstructionData → Hart → ExecReturn × Hart
exec_srai d h = result (shift_right_signed 63 (h.gpr d.rs1) d.imm) d h

pub exec_slti : InstructionData → Hart → ExecReturn × Hart
exec_slti d h = result (of_bool (slt64 (h.gpr d.rs1) d.imm)) d h

pub exec_sltiu : InstructionData → Hart → ExecReturn × Hart
exec_sltiu d h = result (of_bool (ltb (h.gpr d.rs1) d.imm)) d h

pub exec_lui : InstructionData → Hart → ExecReturn × Hart
exec_lui d h = result d.imm d h

pub exec_auipc : InstructionData → Hart → ExecReturn × Hart
exec_auipc d h = result (add64 h.pc d.imm) d h

pub exec_fence : InstructionData → Hart → ExecReturn × Hart
exec_fence d h = (next, h)
