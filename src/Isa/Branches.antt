-- ===== src/Isa/Branches.antt =====
-- The branches and jumps of src/sets/rv64i.cpp, and `exec_ECALL` and `exec_EBREAK`.
pub mod Laws
use riscv_em.Base.{
  ℕ, ◌+◌, ◌-◌, ◌%◌, ◌^◌, u64, add64, bit_and, ltb, leb, ◌==◌, if◌then◌else◌, Bool, true, false, not,
}
use riscv_em.Traps.{
  PrivilegeMode, ExecReturn, exc_inst_addr_misaligned, exc_breakpoint, exc_env_call_from_m,
  exc_env_call_from_s, exc_env_call_from_u,
}
use riscv_em.Hart.{Hart, set_gpr}
use riscv_em.Hart.Trap.{changed_pc}
use riscv_em.Isa.{InstructionData, next, raise, slt64}

-- The body that the six branches share, under their condition.
abbrev pub branch : Bool → InstructionData → Hart → ExecReturn × Hart
branch condition d h =
    let target = add64 h.pc d.imm in
    if condition
    then if not (target % 2 == 0)
      then (raise false exc_inst_addr_misaligned target, h)
      else (changed_pc, record h { pc = target })
    else (next, h)

pub exec_beq : InstructionData → Hart → ExecReturn × Hart
exec_beq d h = branch (h.gpr d.rs1 == h.gpr d.rs2) d h

pub exec_bne : InstructionData → Hart → ExecReturn × Hart
exec_bne d h = branch (not (h.gpr d.rs1 == h.gpr d.rs2)) d h

pub exec_blt : InstructionData → Hart → ExecReturn × Hart
exec_blt d h = branch (slt64 (h.gpr d.rs1) (h.gpr d.rs2)) d h

pub exec_bge : InstructionData → Hart → ExecReturn × Hart
exec_bge d h = branch (not (slt64 (h.gpr d.rs1) (h.gpr d.rs2))) d h

pub exec_bltu : InstructionData → Hart → ExecReturn × Hart
exec_bltu d h = branch (ltb (h.gpr d.rs1) (h.gpr d.rs2)) d h

pub exec_bgeu : InstructionData → Hart → ExecReturn × Hart
exec_bgeu d h = branch (leb (h.gpr d.rs2) (h.gpr d.rs1)) d h

pub exec_jal : InstructionData → Hart → ExecReturn × Hart
exec_jal d h =
    let target = add64 h.pc d.imm in
    if not (target % 2 == 0)
    then (raise true exc_inst_addr_misaligned target, h)
    else (changed_pc, set_gpr d.rd (add64 h.pc 4) (record h { pc = target }))

pub exec_jalr : InstructionData → Hart → ExecReturn × Hart
exec_jalr d h =
    let target = bit_and (add64 (h.gpr d.rs1) d.imm) (2 ^ 64 - 2) in
    if not (target % 2 == 0)
    then (raise true exc_inst_addr_misaligned target, h)
    else (changed_pc, set_gpr d.rd (add64 h.pc 4) (record h { pc = target }))

-- The call's cause is the mode's; the fourth mode has none.
abbrev pub ecall_return : PrivilegeMode → ExecReturn
ecall_return PrivilegeMode.machine = raise true exc_env_call_from_m 0
ecall_return PrivilegeMode.supervisor = raise true exc_env_call_from_s 0
ecall_return PrivilegeMode.user = raise true exc_env_call_from_u 0
ecall_return PrivilegeMode.hypervisor = next

pub exec_ecall : InstructionData → Hart → ExecReturn × Hart
exec_ecall d h = (ecall_return h.mode, h)

pub exec_ebreak : InstructionData → Hart → ExecReturn × Hart
exec_ebreak d h = (raise true exc_breakpoint h.pc, h)
