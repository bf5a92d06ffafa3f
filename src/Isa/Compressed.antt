-- ===== src/Isa/Compressed.antt =====
-- src/sets/rv64c.cpp: the compressed instructions, without the floating-point ones, and their
-- fields and immediates of include/decode.hpp. The two middle registers of an instruction are
-- numbered from x8 on.
pub mod Immediates
use riscv_em.Base.{
  ℕ, ◌+◌, ◌-◌, ◌*◌, ◌/◌, ◌%◌, ◌^◌, bit_and, bit_or, bit_xor, u32, u64, add64, sub64, sext32, ◌==◌,
  if◌then◌else◌, Bool, true, false, not,
}
use riscv_em.Traps.{MemorySize, MemoryReturn, ExecReturn, exc_breakpoint}
use riscv_em.Hart.{Hart, set_gpr}
use riscv_em.Hart.Trap.{changed_pc}
use riscv_em.Memory.{Outcome}
use riscv_em.Memory.Mmio.{Mmio, read, write}
use riscv_em.Isa.{InstructionData, raise, shift_right_signed}
use riscv_em.Isa.Immediates.{sext}
use riscv_em.Isa.Transfers.{Step, extend, finish_load, finish_store}
use riscv_em.Isa.Compressed.Immediates.{d_c_rd, d_c_rs1, d_c_rs2, d_c_nzimm_9}

-- `{ true, false, 2, 0, 0 }`
abbrev pub next2 : ExecReturn
next2 = record { is_success = true; can_change_pc = false; increase_pc = 2; cause = 0; tval = 0 }

-- An instruction that writes register `r` and goes on.
abbrev pub result2 : ℕ → ℕ → Hart → ExecReturn × Hart
result2 r v h = (next2, set_gpr r v h)

-- `rd & 0x7`, from x8 on.
abbrev pub middle : InstructionData → ℕ
middle d = 8 + bit_and d.rd 0x7

-- `(int32_t)imm` as a 64-bit addend.
abbrev pub jump : InstructionData → Hart → ExecReturn × Hart
jump d h = (changed_pc, record h { pc = add64 h.pc (sext32 d.imm) })

pub exec_c_addi4spn : InstructionData → Hart → ExecReturn × Hart
exec_c_addi4spn d h = result2 (8 + d_c_rd d.inst) (add64 (h.gpr 2) d.imm) h

pub exec_c_nop : InstructionData → Hart → ExecReturn × Hart
exec_c_nop d h = (next2, h)

pub exec_c_addi : InstructionData → Hart → ExecReturn × Hart
exec_c_addi d h = result2 d.rd (add64 (h.gpr d.rd) d.imm) h

pub exec_c_addiw : InstructionData → Hart → ExecReturn × Hart
exec_c_addiw d h = result2 d.rd (sext32 (add64 (h.gpr d.rd) d.imm)) h

pub exec_c_li : InstructionData → Hart → ExecReturn × Hart
exec_c_li d h = result2 d.rd (d.imm) h

pub exec_c_lui_addi16sp : InstructionData → Hart → ExecReturn × Hart
exec_c_lui_addi16sp d h =
    if d.rd == 2
    then result2 2 (add64 (h.gpr 2) (sext (u32 (d_c_nzimm_9 d.inst)) 10)) h
    else result2 d.rd (u64 (d.imm * 2 ^ 12)) h

pub exec_c_srli : InstructionData → Hart → ExecReturn × Hart
exec_c_srli d h = result2 (8 + d.rd) (h.gpr (8 + d.rd) / 2 ^ d.imm) h

pub exec_c_srai : InstructionData → Hart → ExecReturn × Hart
exec_c_srai d h = result2 (middle d) (shift_right_signed 63 (h.gpr (middle d)) d.imm) h

pub exec_c_andi : InstructionData → Hart → ExecReturn × Hart
exec_c_andi d h = result2 (middle d) (bit_and (h.gpr (middle d)) (sext (u32 d.imm) 6)) h

pub exec_c_sub : InstructionData → Hart → ExecReturn × Hart
exec_c_sub d h = result2 (middle d) (sub64 (h.gpr (middle d)) (h.gpr (8 + d_c_rd d.inst))) h

pub exec_c_xor : InstructionData → Hart → ExecReturn × Hart
exec_c_xor d h = result2 (middle d) (bit_xor (h.gpr (middle d)) (h.gpr (8 + d_c_rd d.inst))) h

pub exec_c_or : InstructionData → Hart → ExecReturn × Hart
exec_c_or d h = result2 (middle d) (bit_or (h.gpr (middle d)) (h.gpr (8 + d_c_rd d.inst))) h

pub exec_c_and : InstructionData → Hart → ExecReturn × Hart
exec_c_and d h = result2 (middle d) (bit_and (h.gpr (middle d)) (h.gpr (8 + d_c_rd d.inst))) h

pub exec_c_subw : InstructionData → Hart → ExecReturn × Hart
exec_c_subw d h =
    result2 (middle d) (sext32 (sub64 (h.gpr (middle d)) (h.gpr (8 + d_c_rd d.inst)))) h

pub exec_c_addw : InstructionData → Hart → ExecReturn × Hart
exec_c_addw d h =
    result2 (middle d) (sext32 (add64 (h.gpr (middle d)) (h.gpr (8 + d_c_rd d.inst)))) h

pub exec_c_j : InstructionData → Hart → ExecReturn × Hart
exec_c_j d h = jump d h

pub exec_c_beqz : InstructionData → Hart → ExecReturn × Hart
exec_c_beqz d h = if h.gpr (middle d) == 0 then jump d h else (next2, h)

pub exec_c_bnez : InstructionData → Hart → ExecReturn × Hart
exec_c_bnez d h = if not (h.gpr (middle d) == 0) then jump d h else (next2, h)

pub exec_c_slli : InstructionData → Hart → ExecReturn × Hart
exec_c_slli d h = result2 d.rd (u64 (h.gpr d.rd * 2 ^ d.imm)) h

pub exec_c_jr : InstructionData → Hart → ExecReturn × Hart
exec_c_jr d h = (changed_pc, record h { pc = bit_and (h.gpr d.rd) (2 ^ 64 - 2) })

pub exec_c_mv : InstructionData → Hart → ExecReturn × Hart
exec_c_mv d h = result2 d.rd (h.gpr (d_c_rs2 d.inst)) h

pub exec_c_ebreak : InstructionData → Hart → ExecReturn × Hart
exec_c_ebreak d h = (raise true exc_breakpoint h.pc, h)

pub exec_c_jalr : InstructionData → Hart → ExecReturn × Hart
exec_c_jalr d h =
    (changed_pc, set_gpr 1 (add64 h.pc 2) (record h { pc = bit_and (h.gpr d.rd) (2 ^ 64 - 2) }))

pub exec_c_add : InstructionData → Hart → ExecReturn × Hart
exec_c_add d h = result2 d.rd (add64 (h.gpr d.rd) (h.gpr (d_c_rs2 d.inst))) h

module _ {D : Type 0} where
  -- The results of the full-width transfers, with the shorter step.
  pub shorter : Step D → Step D
  shorter (Outcome.done (r, h, m)) = Outcome.done (record r { increase_pc = 2 }, h, m)
  shorter Outcome.throws = Outcome.throws
  shorter Outcome.undefined = Outcome.undefined

  abbrev pub load_to : ℕ → (ℕ → ℕ) → MemorySize → ℕ → InstructionData → Hart → Mmio D → Step D
  load_to r convert size addr d h m =
      shorter (finish_load convert (record d { rd = r }) (read addr size h m))

  abbrev pub store_from : ℕ → MemorySize → ℕ → Hart → Mmio D → Step D
  store_from r size addr h m = shorter (finish_store (write addr size (h.gpr r) h m))

  pub exec_c_lw : InstructionData → Hart → Mmio D → Step D
  exec_c_lw d h m =
      load_to (8 + d_c_rd d.inst) (extend 31) MemorySize.int
        (add64 (h.gpr (8 + d_c_rs1 d.inst)) d.imm) d h m

  pub exec_c_ld : InstructionData → Hart → Mmio D → Step D
  exec_c_ld d h m =
      load_to (8 + d_c_rd d.inst) (λ v. v) MemorySize.long
        (add64 (h.gpr (8 + d_c_rs1 d.inst)) d.imm) d h m

  pub exec_c_lwsp : InstructionData → Hart → Mmio D → Step D
  exec_c_lwsp d h m = load_to d.rd (extend 31) MemorySize.int (add64 (h.gpr 2) d.imm) d h m

  pub exec_c_ldsp : InstructionData → Hart → Mmio D → Step D
  exec_c_ldsp d h m = load_to d.rd (λ v. v) MemorySize.long (add64 (h.gpr 2) d.imm) d h m

  pub exec_c_sw : InstructionData → Hart → Mmio D → Step D
  exec_c_sw d h m =
      store_from (8 + d_c_rd d.inst) MemorySize.int (add64 (h.gpr (8 + d_c_rs1 d.inst)) d.imm) h m

  pub exec_c_sd : InstructionData → Hart → Mmio D → Step D
  exec_c_sd d h m =
      store_from (8 + d_c_rd d.inst) MemorySize.long (add64 (h.gpr (8 + d_c_rs1 d.inst)) d.imm) h m

  pub exec_c_swsp : InstructionData → Hart → Mmio D → Step D
  exec_c_swsp d h m = store_from (d_c_rs2 d.inst) MemorySize.int (add64 (h.gpr 2) d.imm) h m

  pub exec_c_sdsp : InstructionData → Hart → Mmio D → Step D
  exec_c_sdsp d h m = store_from (d_c_rs2 d.inst) MemorySize.long (add64 (h.gpr 2) d.imm) h m
