-- ===== src/Isa/Tests.antt =====
-- Instructions on a concrete hart.
use riscv_em.Base.{ℕ, ◌≡◌, refl, arith}
use riscv_em.Traps.{MemorySize}
use riscv_em.Hart.{Hart, set_gpr}
use riscv_em.Hart.Samples.{user_hart, machine_hart}
use riscv_em.Memory.{Outcome}
use riscv_em.Memory.Mmio.{Mmio, amo_check_reservation}
use riscv_em.Memory.Mmio.Ram.{after}
use riscv_em.Memory.Mmio.Tests.{ram, bus, bus-RamAt}
use riscv_em.Isa.{InstructionData, next}
use riscv_em.Isa.Muldiv.{exec_div, exec_rem, exec_divu, exec_remu}
use riscv_em.Isa.Muldiv.Laws.{Divides, DividesUnsigned, exec_div-exec_rem}
use riscv_em.Isa.Transfers.{exec_ld, exec_sd}
use riscv_em.Isa.Transfers.Laws.{exec_ld-exec_sd}

-- `bne x1, x2, 16`
abbrev branch_data : InstructionData
branch_data = record { inst = 0x00209863; rs1 = 1; rs2 = 2; rd = 0; imm = 16 }

-- `sd x2, 8(x1)` and `ld x5, 8(x1)`
abbrev sd_data : InstructionData
sd_data = record { inst = 0x0020b423; rs1 = 1; rs2 = 2; rd = 0; imm = 8 }

abbrev ld_data : InstructionData
ld_data = record { inst = 0x0080b283; rs1 = 1; rs2 = 0; rd = 5; imm = 8 }

-- `div x5, x1, x2`
abbrev div_data : InstructionData
div_data = record { inst = 0x0220c2b3; rs1 = 1; rs2 = 2; rd = 5; imm = 0 }

-- -7 divided by 2.
abbrev divider : Hart
divider = set_gpr 1 0xfffffffffffffff9 (set_gpr 2 2 user_hart)

exec_div-exec_rem_example :
    Divides 0xfffffffffffffff9 2
      ((exec_div div_data divider).1.gpr 5)
      ((exec_rem div_data divider).1.gpr 5)
    × DividesUnsigned 0xfffffffffffffff9 2
        ((exec_divu div_data divider).1.gpr 5)
        ((exec_remu div_data divider).1.gpr 5)
exec_div-exec_rem_example = exec_div-exec_rem div_data divider (omega arith) (omega arith)

-- The bus after the store.
abbrev stored : Mmio ℕ
stored = after bus 0 ram bus-RamAt 0x80000018 MemorySize.long 0x1234

exec_ld-exec_sd_example :
    (exec_sd sd_data user_hart bus
      ≡ Outcome.done (next, amo_check_reservation 0x80000018 user_hart, stored))
    × (exec_ld ld_data machine_hart stored
        ≡ Outcome.done (next, set_gpr 5 0x1234 machine_hart, stored))
exec_ld-exec_sd_example =
    exec_ld-exec_sd bus 0 ram bus-RamAt sd_data ld_data user_hart machine_hart (omega arith) refl
      (omega arith) refl
