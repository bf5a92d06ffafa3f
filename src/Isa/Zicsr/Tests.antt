-- ===== src/Isa/Zicsr/Tests.antt =====
-- Accesses to the interrupt enables.
use riscv_em.Isa.{InstructionData}

-- `csrrs x5, mie, x0`
abbrev csr_data : InstructionData
csr_data = record { inst = 0x304022f3; rs1 = 0; rs2 = 0; rd = 5; imm = 0x304 }
