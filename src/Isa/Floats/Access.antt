-- ===== src/Isa/Floats/Access.antt =====
-- The floating-point loads and stores of src/sets/rv64f.cpp, rv64d.cpp and rv64c.cpp, over the
-- memory bus.
use riscv_em.Base.{ℕ, ◌+◌, add64, if◌then◌else◌, Option, none, some}
use riscv_em.Traps.{MemorySize, MemoryReturn, ExecReturn}
use riscv_em.Hart.{Hart, update}
use riscv_em.Memory.{Outcome}
use riscv_em.Memory.Mmio.{Mmio, read, write}
use riscv_em.Isa.{InstructionData}
use riscv_em.Isa.Transfers.{address, reported}
use riscv_em.Isa.Compressed.Immediates.{d_c_rd, d_c_rs1, d_c_rs2}
use riscv_em.Isa.Floats.{Fpr}
use riscv_em.Isa.Floats.Single.{f32_in, f32_out}

abbrev pub FloatAccess : Type 0 → Type 0
FloatAccess D = Outcome (ExecReturn × Hart × Fpr × Mmio D)

-- `{ is_success, false, increase_pc, exc_code, tval }` of what the bus reports.
abbrev pub reported_step : ℕ → MemoryReturn → ExecReturn
reported_step increase_pc r = record (reported r) { increase_pc = increase_pc }

module _ {D : Type 0} where
  -- The register is written if the read succeeded.
  unfoldable pub finish_float_load :
      ℕ → (ℕ → ℕ) → ℕ → Fpr → Outcome (MemoryReturn × Option ℕ × Hart × Mmio D) → FloatAccess D
  finish_float_load step convert rd fpr (Outcome.done (r, some v, h, m)) =
      Outcome.done
        (reported_step step r, h, if r.is_success then update fpr rd (convert v) else fpr, m)
  finish_float_load step convert rd fpr (Outcome.done (r, none, h, m)) =
      Outcome.done (reported_step step r, h, fpr, m)
  finish_float_load step convert rd fpr Outcome.throws = Outcome.throws
  finish_float_load step convert rd fpr Outcome.undefined = Outcome.undefined

  unfoldable pub finish_float_store :
      ℕ → Fpr → Outcome (MemoryReturn × Hart × Mmio D) → FloatAccess D
  finish_float_store step fpr (Outcome.done (r, h, m)) =
      Outcome.done (reported_step step r, h, fpr, m)
  finish_float_store step fpr Outcome.throws = Outcome.throws
  finish_float_store step fpr Outcome.undefined = Outcome.undefined

  unfoldable pub exec_flw : InstructionData → Hart → Fpr → Mmio D → FloatAccess D
  exec_flw d h fpr m = finish_float_load 4 f32_out d.rd fpr (read (address d h) MemorySize.int h m)

  unfoldable pub exec_fsw : InstructionData → Hart → Fpr → Mmio D → FloatAccess D
  exec_fsw d h fpr m =
      finish_float_store 4 fpr (write (address d h) MemorySize.int (f32_in (fpr d.rs2)) h m)

  pub exec_fld : InstructionData → Hart → Fpr → Mmio D → FloatAccess D
  exec_fld d h fpr m =
      finish_float_load 4 (λ v. v) d.rd fpr (read (address d h) MemorySize.long h m)

  pub exec_fsd : InstructionData → Hart → Fpr → Mmio D → FloatAccess D
  exec_fsd d h fpr m =
      finish_float_store 4 fpr (write (address d h) MemorySize.long (fpr d.rs2) h m)

  pub exec_c_fld : InstructionData → Hart → Fpr → Mmio D → FloatAccess D
  exec_c_fld d h fpr m =
      finish_float_load 2 (λ v. v) (8 + d_c_rd d.inst) fpr
        (read (add64 (h.gpr (8 + d_c_rs1 d.inst)) d.imm) MemorySize.long h m)

  pub exec_c_fsd : InstructionData → Hart → Fpr → Mmio D → FloatAccess D
  exec_c_fsd d h fpr m = finish_float_store 2 fpr (
      write (add64 (h.gpr (8 + d_c_rs1 d.inst)) d.imm) MemorySize.long (fpr (8 + d_c_rd d.inst)) h
        m)

  pub exec_c_fldsp : InstructionData → Hart → Fpr → Mmio D → FloatAccess D
  exec_c_fldsp d h fpr m =
      finish_float_load 2 (λ v. v) d.rd fpr (read (add64 (h.gpr 2) d.imm) MemorySize.long h m)

  pub exec_c_fsdsp : InstructionData → Hart → Fpr → Mmio D → FloatAccess D
  exec_c_fsdsp d h fpr m =
      finish_float_store 2 fpr
        (write (add64 (h.gpr 2) d.imm) MemorySize.long (fpr (d_c_rs2 d.inst)) h m)
