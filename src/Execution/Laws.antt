-- ===== src/Execution/Laws.antt =====
-- What the start of every cycle establishes, and how an instruction and a trap fit together.
use riscv_em.Base.{◌≡◌, add64, arith}
use riscv_em.Hart.{Hart, update, set_gpr}
use riscv_em.Hart.Csr.{csr_mcycle, csr_minstret}
use riscv_em.Hart.Interrupts.Kept.{check_ints-kept}
use riscv_em.Execution.{begin_cycle}

-- The hart with x0 cleared and the cycle counted.
abbrev counted : Hart → Hart
counted h = record (set_gpr 0 0 h) { csrs = update h.csrs csr_mcycle (add64 (h.csrs csr_mcycle) 1) }

-- When an instruction of the cycle runs, x0 is zero, the cycle has been counted once and no
-- instruction has been counted, whether an interrupt was taken or not.
begin_cycle-counts :
    (h : Hart)
    → ((begin_cycle h).gpr 0 ≡ 0)
      × ((begin_cycle h).csrs csr_mcycle ≡ add64 (h.csrs csr_mcycle) 1)
      × ((begin_cycle h).csrs csr_minstret ≡ h.csrs csr_minstret)
unfolding begin_cycle
begin_cycle-counts h = ground (arith, check_ints-kept (counted h))
