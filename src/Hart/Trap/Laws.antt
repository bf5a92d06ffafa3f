-- ===== src/Hart/Trap/Laws.antt =====
-- What `Hart::trap` sets up, and that `exec_MRET` and `exec_SRET` undo it.
use riscv_em.Base.{ℕ, ◌≤◌, ◌≡◌, ◌≢◌, arith, Bool, true, false, ◌==◌, if◌then◌else◌}
use riscv_em.Base.Bits.{bit, bit-lt, shift-bit_and-one}
use riscv_em.Traps.{PrivilegeMode, mode_code}
use riscv_em.Hart.{Hart}
use riscv_em.Hart.Csr.{csr_mideleg}
use riscv_em.Hart.Trap.{trap, trap_machine, trap_supervisor, delegate_to_s, is_machine}

pub mode-trap :
    (cause tval : ℕ) (interrupt : Bool) (h : Hart)
    → (trap cause tval interrupt h).mode ≡ (
        if delegate_to_s cause interrupt h then PrivilegeMode.supervisor else PrivilegeMode.machine)
unfolding trap trap_machine trap_supervisor
mode-trap cause tval interrupt h = ground arith

pub delegate_to_s-interrupt :
    (irq : ℕ) (h : Hart)
    → delegate_to_s irq true h
      ≡ (if is_machine h.mode then false else bit irq (h.csrs csr_mideleg) == 1)
unfolding delegate_to_s
delegate_to_s-interrupt irq h =
    ground (arith, shift-bit_and-one irq (h.csrs csr_mideleg), bit-lt irq (h.csrs csr_mideleg))

-- A trap never lowers the privilege, for a hart that is not in hypervisor mode, which the emulator
-- does not have: the mode after it is supervisor or machine and at least the mode before.
mode-trap_raises :
    (cause tval : ℕ) (interrupt : Bool) (h : Hart)
    → h.mode ≢ PrivilegeMode.hypervisor
    → (mode_code h.mode ≤ mode_code (trap cause tval interrupt h).mode)
      × ((trap cause tval interrupt h).mode ≢ PrivilegeMode.user)
      × ((trap cause tval interrupt h).mode ≢ PrivilegeMode.hypervisor)
unfolding trap trap_machine trap_supervisor delegate_to_s
mode-trap_raises cause tval interrupt h m = ground arith
