-- ===== src/Execution.antt =====
-- `Hart::init`, `Hart::fetch`, `Hart::single_inst` and `Hart::tick` of src/hart.cpp, built without
-- the JIT. The decoder's choice for an instruction word at an address is the argument `decode`: the
-- function of the instruction with its decoded data, or `none` for an invalid entry.
pub mod Laws
pub mod Calls
pub mod Cached
use riscv_em.Base.{
  ℕ, ◌+◌, ◌-◌, ◌^◌, bit_and, bit_or, u64, add64, ◌==◌, if◌then◌else◌, Bool, true, false, not,
  Option, none, some,
}
use riscv_em.Traps.{
  PrivilegeMode, MemorySize, MemoryReturn, ExecReturn, exc_inst_access_fault,
  exc_illegal_instruction,
}
use riscv_em.Hart.{Hart, update, set_gpr}
use riscv_em.Hart.Csr.{
  csr_misa, csr_mhartid, csr_mcycle, csr_minstret, set_status_sxl, set_status_uxl,
}
use riscv_em.Hart.Trap.{trap}
use riscv_em.Hart.Interrupts.{check_ints, int_local_pending}
use riscv_em.Memory.{Outcome}
use riscv_em.Memory.Mmio.{Mmio, read}
use riscv_em.Isa.Transfers.{Step}

-- The letters IMAFDCBSU and the width.
abbrev pub misa : ℕ
misa = 2 ^ 63 + 2 ^ 8 + 2 ^ 12 + 2 ^ 0 + 2 ^ 5 + 2 ^ 3 + 2 ^ 2 + 2 ^ 1 + 2 ^ 18 + 2 ^ 20

pub init : ℕ → ℕ → Hart → Hart
init dtb_pos_at_memory entry_pc h = record h {
  pc = entry_pc;
  mode = PrivilegeMode.machine;
  gpr = update (update h.gpr 10 h.id) 11 dtb_pos_at_memory;
  csrs = update (update h.csrs csr_misa misa) csr_mhartid h.id;
  status = set_status_uxl 2 (set_status_sxl 2 h.status);
}

-- What the start of a cycle does: x0 is cleared, the cycle is counted, interrupts are taken.
pub begin_cycle : Hart → Hart
begin_cycle h =
    let counted = record (set_gpr 0 0 h) {
      csrs = update h.csrs csr_mcycle (add64 (h.csrs csr_mcycle) 1);
    } in
    if not (bit_and h.ip h.ie == 0) then (check_ints counted).1 else counted

-- The result of the instruction: a trap, or the next address and one more instruction retired.
pub finish : ExecReturn → Hart → Hart
finish out h = if not out.is_success then trap out.cause out.tval false h else record h {
  csrs = update h.csrs csr_minstret (add64 (h.csrs csr_minstret) 1);
  pc = add64 h.pc out.increase_pc;
}

-- A hart that waits goes on as soon as an interrupt is pending.
pub waiting : Hart → Hart
waiting h = if int_local_pending h then record h { wfi = false } else h

module _ {D : Type 0} where
  -- The word, zero after an access fault, which traps.
  pub fetched : Outcome (MemoryReturn × Option ℕ × Hart × Mmio D) → Outcome (ℕ × Hart × Mmio D)
  fetched (Outcome.done (out, some val, h, m)) =
      Outcome.done
        (val, if out.is_success then h else trap exc_inst_access_fault out.tval false h, m)
  fetched (Outcome.done (out, none, h, m)) =
      Outcome.done (0, if out.is_success then h else trap exc_inst_access_fault out.tval false h, m)
  fetched Outcome.throws = Outcome.throws
  fetched Outcome.undefined = Outcome.undefined

  pub fetch : ℕ → Hart → Mmio D → Outcome (ℕ × Hart × Mmio D)
  fetch inst_pc h m = fetched (read inst_pc MemorySize.int h m)

  pub retire : Step D → Outcome (Hart × Mmio D)
  retire (Outcome.done (out, h, m)) = Outcome.done (finish out h, m)
  retire Outcome.throws = Outcome.throws
  retire Outcome.undefined = Outcome.undefined

  module _ (decode : ℕ → ℕ → Option (Hart → Mmio D → Step D)) where
    -- The decoder is asked for the address that the hart has after the fetch.
    pub run : Outcome (ℕ × Hart × Mmio D) → Outcome (Hart × Mmio D)
    run (Outcome.done (inst, h, m)) = elim (decode h.pc inst) [
      | some func ↦ retire (func h m)
      | none ↦ Outcome.done (trap exc_illegal_instruction inst false h, m)
    ]
    run Outcome.throws = Outcome.throws
    run Outcome.undefined = Outcome.undefined

    pub tick : Hart → Mmio D → Outcome (Hart × Mmio D)
    tick h m =
        let g = begin_cycle h in if g.wfi then Outcome.done (waiting g, m) else run (fetch g.pc g m)
