-- ===== src/Isa/Zicsr.antt =====
-- src/sets/zicsr.cpp: the instructions that read and write control registers.
pub mod Laws
mod Tests
use riscv_em.Base.{
  ℕ, ◌+◌, ◌-◌, ◌^◌, bit_and, bit_or, not64, nonzero, ltb, leb, ◌==◌, if◌then◌else◌, Bool, true,
  false, not, ◌&&◌, ◌||◌,
}
use riscv_em.Traps.{PrivilegeMode, ExecReturn}
use riscv_em.Hart.{Hart, set_gpr}
use riscv_em.Hart.Csr.{csr_satp, csr_mcounteren, csr_scounteren, csr_minstret, status_tvm}
use riscv_em.Hart.Trap.{is_machine, is_supervisor, is_user, illegal}
use riscv_em.Hart.Access.{csr_read, csr_write}
use riscv_em.Isa.{InstructionData, next}

pub compatible_mode : PrivilegeMode → PrivilegeMode → Bool
compatible_mode PrivilegeMode.machine cur = is_machine cur
compatible_mode PrivilegeMode.supervisor cur = is_machine cur || is_supervisor cur
compatible_mode PrivilegeMode.user cur = is_machine cur || is_supervisor cur || is_user cur
compatible_mode PrivilegeMode.hypervisor cur = true

abbrev pub between : ℕ → ℕ → ℕ → Bool
between low high csr = leb low csr && leb csr high

-- The level that a number's range asks for.
pub csr_level : ℕ → PrivilegeMode
csr_level csr =
    if between 0x000 0x0ff csr
    then PrivilegeMode.user
    else if between 0x100 0x1ff csr
    then PrivilegeMode.supervisor
    else if between 0x200 0x2ff csr
    then PrivilegeMode.hypervisor
    else if between 0x300 0x3ff csr
    then PrivilegeMode.machine
    else if between 0xb00 0xbff csr
    then PrivilegeMode.machine
    else if between 0xc00 0xcff csr
    then PrivilegeMode.user
    else if between 0xf00 0xfff csr
    then PrivilegeMode.machine
    else PrivilegeMode.user

-- SCOUNTOVF, SSTATEEN0-3, MSTATEEN0-3, MTOPI, TSELECT, TDATA1-3, MCYCLECFG and MINSTRET.
pub unimplemented : ℕ → Bool
unimplemented csr =
    (csr == 0xda0)
    || between 0x10c 0x10f csr
    || between 0x30c 0x30f csr
    || (csr == 0xfb0)
    || (csr == 0x7a0)
    || between 0x7a1 0x7a3 csr
    || (csr == 0x321)
    || (csr == csr_minstret)

pub read_only : ℕ → Bool
read_only csr =
    (csr == 0xf11)
    || (csr == 0xf12)
    || (csr == 0xf13)
    || (csr == 0xf14)
    || (csr == 0xf15f)
    || between 0xc00 0xc1f csr

pub csr_accessible : ℕ → PrivilegeMode → Bool → Bool
csr_accessible csr current_priv write =
    if not (compatible_mode (csr_level csr) current_priv)
    then false
    else if unimplemented csr
    then false
    else if read_only csr
    then not write
    else true

-- The user's counters want their bit in MCOUNTEREN, and in user mode in SCOUNTEREN too.
pub enabled_in : PrivilegeMode → ℕ → ℕ → ℕ → Bool
enabled_in PrivilegeMode.supervisor offset mcounteren scounteren =
    bit_and mcounteren offset == offset
enabled_in PrivilegeMode.user offset mcounteren scounteren =
    (bit_and mcounteren offset == offset) && (bit_and scounteren offset == offset)
enabled_in _ offset mcounteren scounteren = true

pub counter_enabled : ℕ → Hart → Bool
counter_enabled csr h =
    if ltb csr 0xc00 || ltb 0xc1f csr
    then true
    else enabled_in h.mode (2 ^ (csr - 0xc00)) (csr_read csr_mcounteren h).0
        (csr_read csr_scounteren h).0

-- The three checks that the six instructions begin with; `write` is what `csr_accessible` is asked.
pub refused : Bool → InstructionData → Hart → Bool
refused write d h =
    (is_supervisor h.mode && nonzero (status_tvm h.status) && (d.imm == csr_satp))
    || not (counter_enabled d.imm h)
    || not (csr_accessible d.imm h.mode write)

pub exec_csrrw : InstructionData → Hart → ExecReturn × Hart
exec_csrrw d h =
    if refused (true) d h
    then (illegal d.inst, h)
    else let (init_val, g) = csr_read d.imm h in
      let w = csr_write d.imm (g.gpr d.rs1) g in
      (next, if not (d.rd == 0) then set_gpr d.rd init_val w else w)

pub exec_csrrs : InstructionData → Hart → ExecReturn × Hart
exec_csrrs d h =
    if refused (not (d.rs1 == 0)) d h
    then (illegal d.inst, h)
    else let (init_val, g) = csr_read d.imm h in
      let w = if not (d.rs1 == 0) then csr_write d.imm (bit_or init_val (g.gpr d.rs1)) g else g in
      (next, set_gpr d.rd init_val w)

pub exec_csrrc : InstructionData → Hart → ExecReturn × Hart
exec_csrrc d h =
    if refused (not (d.rs1 == 0)) d h
    then (illegal d.inst, h)
    else let (init_val, g) = csr_read d.imm h in
      let w =
        if not (d.rs1 == 0)
        then csr_write d.imm (bit_and init_val (not64 (g.gpr d.rs1))) g
        else g in
      (next, set_gpr d.rd init_val w)

pub exec_csrrwi : InstructionData → Hart → ExecReturn × Hart
exec_csrrwi d h =
    if refused (not (d.rs1 == 0)) d h
    then (illegal d.inst, h)
    else let (value, r) = csr_read d.imm h in
      let g = if not (d.rd == 0) then set_gpr d.rd value r else h in (next, csr_write d.imm d.rs1 g)

pub exec_csrrsi : InstructionData → Hart → ExecReturn × Hart
exec_csrrsi d h =
    if refused (not (d.rs1 == 0)) d h
    then (illegal d.inst, h)
    else let (init_val, g) = csr_read d.imm h in
      let w = if not (d.rs1 == 0) then csr_write d.imm (bit_or init_val d.rs1) g else g in
      (next, set_gpr d.rd init_val w)

pub exec_csrrci : InstructionData → Hart → ExecReturn × Hart
exec_csrrci d h =
    if refused (not (d.rs1 == 0)) d h
    then (illegal d.inst, h)
    else let (init_val, g) = csr_read d.imm h in
      let w = if not (d.rs1 == 0) then csr_write d.imm (bit_and init_val (not64 d.rs1)) g else g in
      (next, set_gpr d.rd init_val w)
