-- ===== src/Isa/Transfers.antt =====
-- The loads and stores of src/sets/rv64i.cpp, over the memory bus.
pub mod Laws
use riscv_em.Base.{
  ℕ, ◌+◌, ◌-◌, ◌^◌, add64, leb, if◌then◌else◌, Bool, true, false, Option, none, some,
}
use riscv_em.Traps.{MemorySize, MemoryReturn, ExecReturn}
use riscv_em.Hart.{Hart, set_gpr}
use riscv_em.Memory.{Outcome}
use riscv_em.Memory.Mmio.{Mmio, read, write}
use riscv_em.Isa.{InstructionData}

-- `{ is_success, false, 4, exc_code, tval }` of what the bus reports.
abbrev pub reported : MemoryReturn → ExecReturn
reported r = record {
  is_success = r.is_success;
  can_change_pc = false;
  increase_pc = 4;
  cause = r.exc_code;
  tval = r.tval;
}

-- A signed value of `w + 1` bits as a 64-bit pattern.
abbrev pub extend : ℕ → ℕ → ℕ
extend w x = if leb (2 ^ w) x then x + (2 ^ 64 - 2 ^ (w + 1)) else x

abbrev pub Step : Type 0 → Type 0
Step D = Outcome (ExecReturn × Hart × Mmio D)

abbrev pub address : InstructionData → Hart → ℕ
address d h = add64 (h.gpr d.rs1) d.imm

module _ {D : Type 0} where
  -- `rd` is written if the read succeeded.
  pub finish_load :
      (ℕ → ℕ) → InstructionData → Outcome (MemoryReturn × Option ℕ × Hart × Mmio D) → Step D
  finish_load convert d (Outcome.done (r, some v, h, m)) =
      Outcome.done (reported r, if r.is_success then set_gpr d.rd (convert v) h else h, m)
  finish_load convert d (Outcome.done (r, none, h, m)) = Outcome.done (reported r, h, m)
  finish_load convert d Outcome.throws = Outcome.throws
  finish_load convert d Outcome.undefined = Outcome.undefined

  pub finish_store : Outcome (MemoryReturn × Hart × Mmio D) → Step D
  finish_store (Outcome.done (r, h, m)) = Outcome.done (reported r, h, m)
  finish_store Outcome.throws = Outcome.throws
  finish_store Outcome.undefined = Outcome.undefined

  pub exec_ld : InstructionData → Hart → Mmio D → Step D
  exec_ld d h m = finish_load (λ v. v) d (read (address d h) MemorySize.long h m)

  pub exec_lwu : InstructionData → Hart → Mmio D → Step D
  exec_lwu d h m = finish_load (λ v. v) d (read (address d h) MemorySize.int h m)

  pub exec_lb : InstructionData → Hart → Mmio D → Step D
  exec_lb d h m = finish_load (extend 7) d (read (address d h) MemorySize.byte h m)

  pub exec_lh : InstructionData → Hart → Mmio D → Step D
  exec_lh d h m = finish_load (extend 15) d (read (address d h) MemorySize.short h m)

  pub exec_lw : InstructionData → Hart → Mmio D → Step D
  exec_lw d h m = finish_load (extend 31) d (read (address d h) MemorySize.int h m)

  pub exec_lbu : InstructionData → Hart → Mmio D → Step D
  exec_lbu d h m = finish_load (λ v. v) d (read (address d h) MemorySize.byte h m)

  pub exec_lhu : InstructionData → Hart → Mmio D → Step D
  exec_lhu d h m = finish_load (λ v. v) d (read (address d h) MemorySize.short h m)

  pub exec_sd : InstructionData → Hart → Mmio D → Step D
  exec_sd d h m = finish_store (write (address d h) MemorySize.long (h.gpr d.rs2) h m)

  pub exec_sb : InstructionData → Hart → Mmio D → Step D
  exec_sb d h m = finish_store (write (address d h) MemorySize.byte (h.gpr d.rs2) h m)

  pub exec_sh : InstructionData → Hart → Mmio D → Step D
  exec_sh d h m = finish_store (write (address d h) MemorySize.short (h.gpr d.rs2) h m)

  pub exec_sw : InstructionData → Hart → Mmio D → Step D
  exec_sw d h m = finish_store (write (address d h) MemorySize.int (h.gpr d.rs2) h m)
