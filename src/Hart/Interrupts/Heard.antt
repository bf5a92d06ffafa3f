-- ===== src/Hart/Interrupts/Heard.antt =====
-- The tests of `Hart::check_ints` for the modes that take interrupts, by codes and bits of the status.
use riscv_em.Base.{ℕ, ◌<◌, nonzero, ltb, ◌≡◌, ◌↔◌, ◌⊎◌, arith, true, if◌then◌else◌}
use riscv_em.Base.Bits.{bit}
use riscv_em.Traps.{PrivilegeMode, mode_code}
use riscv_em.Hart.{Hart}
use riscv_em.Hart.Csr.{status_mie, status_sie}
use riscv_em.Hart.Trap.{is_machine, is_supervisor}
use riscv_em.Hart.Interrupts.{m_global, s_global}

-- Machine mode hears its interrupts from a lower mode, and in machine mode where MIE, bit 3, is set.
unfoldable pub MachineHears : PrivilegeMode → ℕ → Type 0
MachineHears mode status = (mode_code mode < 3) ⊎ (bit 3 status ≡ 1)

-- Supervisor mode hears its interrupts from user mode, and in supervisor mode where SIE, bit 1, is
-- set.
unfoldable pub SupervisorHears : PrivilegeMode → ℕ → Type 0
SupervisorHears mode status = (mode_code mode < 1) ⊎ ((mode_code mode ≡ 1) × (bit 1 status ≡ 1))

machine_test :
    (mode : PrivilegeMode) (status : ℕ)
    → ((if is_machine mode
          then nonzero (status_mie status)
          else ltb (mode_code mode) (mode_code PrivilegeMode.machine))
        ≡ true)
      ↔ MachineHears mode status
unfolding MachineHears
machine_test PrivilegeMode.machine status = ground arith
machine_test PrivilegeMode.supervisor status = ground arith
machine_test PrivilegeMode.hypervisor status = ground arith
machine_test PrivilegeMode.user status = ground arith

supervisor_test :
    (mode : PrivilegeMode) (status : ℕ)
    → ((if is_supervisor mode
          then nonzero (status_sie status)
          else ltb (mode_code mode) (mode_code PrivilegeMode.supervisor))
        ≡ true)
      ↔ SupervisorHears mode status
unfolding SupervisorHears
supervisor_test PrivilegeMode.machine status = ground arith
supervisor_test PrivilegeMode.supervisor status = ground arith
supervisor_test PrivilegeMode.hypervisor status = ground arith
supervisor_test PrivilegeMode.user status = ground arith

pub m_global-MachineHears : (h : Hart) → (m_global h ≡ true) ↔ MachineHears h.mode h.status
unfolding m_global
m_global-MachineHears h = machine_test h.mode h.status

pub s_global-SupervisorHears : (h : Hart) → (s_global h ≡ true) ↔ SupervisorHears h.mode h.status
unfolding s_global
s_global-SupervisorHears h = supervisor_test h.mode h.status
