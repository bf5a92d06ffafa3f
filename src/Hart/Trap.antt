-- ===== src/Hart/Trap.antt =====
-- `Hart::trap` of src/hart.cpp, and `exec_MRET` and `exec_SRET` of src/sets/priv.cpp, which
-- return from a trap.
pub mod Laws
pub mod Kept
mod Tests
use riscv_em.Base.{
  ℕ, ◌+◌, ◌-◌, ◌*◌, ◌/◌, ◌^◌, bit_and, bit_or, u64, nonzero, of_bool, ◌==◌, if◌then◌else◌, Bool,
  true, false, not, ◌&&◌, ◌||◌,
}
use riscv_em.Traps.{PrivilegeMode, mode_code, ExecReturn, exc_illegal_instruction}
use riscv_em.Hart.{Hart, update}
use riscv_em.Hart.Csr.{
  csr_medeleg, csr_mideleg, csr_stvec, csr_sepc, csr_scause, csr_stval, csr_mtvec, csr_mepc,
  csr_mcause, csr_mtval, status_sie, set_status_sie, status_mie, set_status_mie, status_spie,
  set_status_spie, status_mpie, set_status_mpie, status_spp, set_status_spp, status_mpp,
  set_status_mpp, set_status_mprv, status_tsr,
}

-- `prev_mode != PrivilegeMode::Machine`
abbrev pub is_machine : PrivilegeMode → Bool
is_machine PrivilegeMode.machine = true
is_machine _ = false

abbrev pub is_supervisor : PrivilegeMode → Bool
is_supervisor PrivilegeMode.supervisor = true
is_supervisor _ = false

abbrev pub is_user : PrivilegeMode → Bool
is_user PrivilegeMode.user = true
is_user _ = false

-- `delegate_to_s`: bit `cause` of the delegation register, unless in machine mode.
pub delegate_to_s : ℕ → Bool → Hart → Bool
delegate_to_s cause interrupt h =
    if is_machine h.mode
    then false
    else if interrupt
    then nonzero (bit_and (h.csrs csr_mideleg / 2 ^ cause) 1)
    else nonzero (bit_and (h.csrs csr_medeleg / 2 ^ cause) 1)

-- The handler's address: the base, or in vectored mode the interrupt's own entry.
pub trap_target : ℕ → ℕ → Bool → ℕ
trap_target tvec cause interrupt =
    let vector = if (bit_and tvec 1 == 1) && interrupt then u64 (4 * cause) else 0 in
    u64 (bit_and tvec (2 ^ 64 - 4) + vector)

-- `(interrupt ? (1ULL << 63) : 0) | cause`
pub trap_cause : ℕ → Bool → ℕ
trap_cause cause interrupt = bit_or (if interrupt then 2 ^ 63 else 0) cause

-- The branch that enters supervisor mode.
pub trap_supervisor : ℕ → ℕ → Bool → Hart → Hart
trap_supervisor cause tval interrupt h = record h {
  wfi = false;
  mode = PrivilegeMode.supervisor;
  pc = trap_target (h.csrs csr_stvec) cause interrupt;
  csrs =
      update (update (update h.csrs csr_sepc h.pc) csr_scause (trap_cause cause interrupt))
        csr_stval tval;
  status =
      set_status_spp (of_bool (not (is_user h.mode)))
        (set_status_sie 0 (set_status_spie (status_sie h.status) h.status));
}

-- The branch that enters machine mode.
pub trap_machine : ℕ → ℕ → Bool → Hart → Hart
trap_machine cause tval interrupt h = record h {
  wfi = false;
  mode = PrivilegeMode.machine;
  pc = trap_target (h.csrs csr_mtvec) cause interrupt;
  csrs =
      update (update (update h.csrs csr_mepc h.pc) csr_mcause (trap_cause cause interrupt))
        csr_mtval tval;
  status =
      set_status_mpp (mode_code h.mode)
        (set_status_mie 0 (set_status_mpie (status_mie h.status) h.status));
}

pub trap : ℕ → ℕ → Bool → Hart → Hart
trap cause tval interrupt h =
    if delegate_to_s cause interrupt h
    then trap_supervisor cause tval interrupt h
    else trap_machine cause tval interrupt h

-- The switch on MPP: the mode, and MPRV cleared for the two lower modes. The fourth value leaves
-- both alone.
pub mret_mode : ℕ → PrivilegeMode → PrivilegeMode
mret_mode mpp mode =
    if mpp == 0
    then PrivilegeMode.user
    else if mpp == 1
    then PrivilegeMode.supervisor
    else if mpp == 3
    then PrivilegeMode.machine
    else mode

pub mret_status : ℕ → ℕ
mret_status s =
    let switched = if (status_mpp s == 0) || (status_mpp s == 1) then set_status_mprv 0 s else s in
    set_status_mpp (mode_code PrivilegeMode.user)
      (set_status_mpie 1 (set_status_mie (status_mpie switched) switched))

abbrev pub changed_pc : ExecReturn
changed_pc = record {
  is_success = true;
  can_change_pc = true;
  increase_pc = 0;
  cause = 0;
  tval = 0;
}

pub exec_mret : Hart → ExecReturn × Hart
exec_mret h = (
  changed_pc,
  record h {
    pc = h.csrs csr_mepc;
    mode = mret_mode (status_mpp h.status) h.mode;
    status = mret_status h.status;
  },
)

pub sret_status : ℕ → ℕ
sret_status s =
    let switched = if status_spp s == 1 then set_status_mprv 0 s else s in
    set_status_spp (mode_code PrivilegeMode.user)
      (set_status_spie 1 (set_status_sie (status_spie switched) switched))

abbrev pub illegal : ℕ → ExecReturn
illegal inst = record {
  is_success = false;
  can_change_pc = false;
  increase_pc = 0;
  cause = exc_illegal_instruction;
  tval = inst;
}

-- `inst` is the raw instruction word.
pub exec_sret : ℕ → Hart → ExecReturn × Hart
exec_sret inst h =
    if is_user h.mode || (is_supervisor h.mode && nonzero (bit_and (status_tsr h.status) 1))
    then (illegal inst, h)
    else (
      changed_pc,
      record h {
        pc = h.csrs csr_sepc;
        mode = if status_spp h.status == 0 then PrivilegeMode.user else PrivilegeMode.supervisor;
        status = sret_status h.status;
      },
    )
