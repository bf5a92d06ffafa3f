-- ===== src/Hart/Trap/Kept.antt =====
-- What a trap leaves alone.
use riscv_em.Base.{ℕ, ◌≡◌, Bool, false, arith}
use riscv_em.Hart.{Hart}
use riscv_em.Hart.Csr.{csr_mcycle, csr_minstret}
use riscv_em.Hart.Trap.{trap, trap_supervisor, trap_machine}

-- The general registers and the two counters stay, and a trap wakes the hart up.
pub trap-kept :
    (cause tval : ℕ) (interrupt : Bool) (h : Hart)
    → ((trap cause tval interrupt h).gpr ≡ h.gpr)
      × ((trap cause tval interrupt h).csrs csr_mcycle ≡ h.csrs csr_mcycle)
      × ((trap cause tval interrupt h).csrs csr_minstret ≡ h.csrs csr_minstret)
      × ((trap cause tval interrupt h).wfi ≡ false)
unfolding trap trap_supervisor trap_machine
trap-kept cause tval interrupt h = ground arith
