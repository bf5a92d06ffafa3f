-- ===== src/Isa/Floats/Tests.antt =====
-- Floating-point instructions on concrete registers.
use riscv_em.Base.{ℕ, ◌≤◌, ◌≡◌, ◌⊎◌, refl, if◌then◌else◌, ◌||◌, false, ◌==◌, ltb, leb, arith}
use riscv_em.Traps.{MemorySize}
use riscv_em.Hart.{update}
use riscv_em.Hart.Samples.{user_hart, machine_hart}
use riscv_em.Memory.{Outcome}
use riscv_em.Memory.Mmio.{Mmio, amo_check_reservation}
use riscv_em.Memory.Mmio.Ram.{after}
use riscv_em.Memory.Mmio.Tests.{ram, bus, bus-RamAt}
use riscv_em.Isa.{InstructionData, next}
use riscv_em.Isa.Floats.{
  Fpr, Format, sign_mask, exponent_mask, signbit, unsigned_part, isnan, is_zero, isless,
}
use riscv_em.Isa.Floats.Single.{exec_feq_s, exec_flt_s, exec_fle_s, exec_fclass_s}
use riscv_em.Isa.Floats.Double.{exec_fmin_d, exec_fmax_d}
use riscv_em.Isa.Floats.Access.{exec_flw, exec_fsw}
use riscv_em.Isa.Floats.Laws.{
  exchanged, place, no_number, exec_flt_s-exec_feq_s, exec_flt_s-exec_fclass_s,
  exec_fmin_d-exec_fmax_d, exec_flw-exec_fsw,
}

-- -1.0 and 2.5 as `float` in f1 and f2, -0.0 and 3.0 as `double` in f3 and f4.
abbrev registers : Fpr
registers i =
    if i == 1
    then 0xffffffffbf800000
    else if i == 2
    then 0xffffffff40200000
    else if i == 3
    then 0x8000000000000000
    else 0x4008000000000000

-- `flt.s x5, f1, f2`
abbrev flt_data : InstructionData
flt_data = record { inst = 0xa02092d3; rs1 = 1; rs2 = 2; rd = 5; imm = 0 }

-- `fmin.d f5, f3, f4`
abbrev fmin_data : InstructionData
fmin_data = record { inst = 0x2a4182d3; rs1 = 3; rs2 = 4; rd = 5; imm = 0 }

-- `fsw f2, 8(x1)` and `flw f5, 8(x1)`
abbrev fsw_data : InstructionData
fsw_data = record { inst = 0x0020a427; rs1 = 1; rs2 = 2; rd = 0; imm = 8 }

abbrev flw_data : InstructionData
flw_data = record { inst = 0x0080a287; rs1 = 1; rs2 = 0; rd = 5; imm = 8 }

exec_flt_s-exec_feq_s_example :
    let unordered = no_number 0xbf800000 || no_number 0x40200000 in
    ((exec_flt_s flt_data user_hart registers).1.gpr 5
      ≡ (if unordered then 0 else if ltb (place 0xbf800000) (place 0x40200000) then 1 else 0))
    × ((exec_feq_s flt_data user_hart registers).1.gpr 5
        ≡ (if unordered then 0 else if place 0xbf800000 == place 0x40200000 then 1 else 0))
    × ((exec_fle_s flt_data user_hart registers).1.gpr 5
        ≡ (if unordered then 0 else if leb (place 0xbf800000) (place 0x40200000) then 1 else 0))
exec_flt_s-exec_feq_s_example = exec_flt_s-exec_feq_s flt_data user_hart registers

exec_flt_s-exec_fclass_s_example :
    (exec_fclass_s flt_data user_hart registers).1.gpr 5
    ≤ (exec_fclass_s (exchanged flt_data) user_hart registers).1.gpr 5
unfolding exec_flt_s isless isnan is_zero signbit unsigned_part sign_mask exponent_mask
exec_flt_s-exec_fclass_s_example = exec_flt_s-exec_fclass_s flt_data user_hart registers refl

exec_fmin_d-exec_fmax_d_example :
    (isless Format.double
        ((exec_fmax_d fmin_data user_hart registers).2 5)
        ((exec_fmin_d fmin_data user_hart registers).2 5)
      ≡ false)
    × ((((exec_fmin_d fmin_data user_hart registers).2 5 ≡ registers 3)
          × ((exec_fmax_d fmin_data user_hart registers).2 5 ≡ registers 4))
        ⊎ (((exec_fmin_d fmin_data user_hart registers).2 5 ≡ registers 4)
            × ((exec_fmax_d fmin_data user_hart registers).2 5 ≡ registers 3)))
unfolding isnan unsigned_part sign_mask exponent_mask
exec_fmin_d-exec_fmax_d_example =
    exec_fmin_d-exec_fmax_d fmin_data user_hart registers (omega arith) (omega arith) refl refl

-- The bus after the store.
abbrev stored : Mmio ℕ
stored = after bus 0 ram bus-RamAt 0x80000018 MemorySize.int 0x40200000

exec_flw-exec_fsw_example :
    (exec_fsw fsw_data user_hart registers bus
      ≡ Outcome.done (next, amo_check_reservation 0x80000018 user_hart, registers, stored))
    × (exec_flw flw_data machine_hart registers stored
        ≡ Outcome.done (next, machine_hart, update registers 5 0xffffffff40200000, stored))
exec_flw-exec_fsw_example =
    exec_flw-exec_fsw bus 0 ram bus-RamAt fsw_data flw_data user_hart machine_hart registers
      registers (omega arith) refl refl
