-- ===== src/Isa/Bitmanip/Logic/Tests.antt =====
-- Counts at a concrete register.
use riscv_em.Base.{u32, arith}
use riscv_em.Hart.Samples.{user_hart}
use riscv_em.Isa.{InstructionData}
use riscv_em.Isa.Bitmanip.Logic.{exec_clz, exec_clzw}
use riscv_em.Isa.Bitmanip.Logic.Laws.{LeadingZeros, exec_clz-LeadingZeros}

-- `clz x5, x2`
abbrev clz_data : InstructionData
clz_data = record { inst = 0x60011293; rs1 = 2; rs2 = 0; rd = 5; imm = 0x600 }

exec_clz-LeadingZeros_example :
    LeadingZeros 64 0x1234 ((exec_clz clz_data user_hart).1.gpr 5)
    × LeadingZeros 32 (u32 0x1234) ((exec_clzw clz_data user_hart).1.gpr 5)
exec_clz-LeadingZeros_example = exec_clz-LeadingZeros clz_data user_hart (omega arith)
