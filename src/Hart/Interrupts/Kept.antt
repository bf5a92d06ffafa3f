-- ===== src/Hart/Interrupts/Kept.antt =====
-- What taking an interrupt leaves alone.
use riscv_em.Base.{◌≡◌, arith, true, Option-cases, inl, inr}
use riscv_em.Hart.{Hart}
use riscv_em.Hart.Csr.{csr_mcycle, csr_minstret}
use riscv_em.Hart.Trap.Kept.{trap-kept}
use riscv_em.Hart.Interrupts.{check_ints, chosen}

pub check_ints-kept :
    (h : Hart)
    → ((check_ints h).1.gpr ≡ h.gpr)
      × ((check_ints h).1.csrs csr_mcycle ≡ h.csrs csr_mcycle)
      × ((check_ints h).1.csrs csr_minstret ≡ h.csrs csr_minstret)
unfolding check_ints
check_ints-kept h = elim (Option-cases (chosen h)) [
  | inl e ↦ ground (arith, e)
  | inr (irq, e) ↦ ground (arith, e, trap-kept irq 0 true h)
]
