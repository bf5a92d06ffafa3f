-- ===== src/Hart/Interrupts/Tests.antt =====
-- Interrupts of concrete harts.
use riscv_em.Base.{ℕ, ◌≡◌, refl, false, true, arith, In, if◌then◌else◌, ◌==◌, [], ◌∷◌}
use riscv_em.Base.Bits.{bit}
use riscv_em.Traps.{PrivilegeMode}
use riscv_em.Hart.Csr.{csr_mideleg}
use riscv_em.Hart.Samples.{user_hart, machine_hart}
use riscv_em.Hart.Trap.{trap}
use riscv_em.Hart.Interrupts.{
  check_ints, chosen, first_pending, pending_m, pending_s, m_global, s_global,
}
use riscv_em.Hart.Interrupts.Laws.{Deliverable, check_ints-Deliverable, check_ints-idle}

timer_taken : check_ints user_hart ≡ (true, trap 7 0 true user_hart)
unfolding check_ints chosen first_pending pending_m pending_s m_global s_global
timer_taken = refl

nothing_taken : (check_ints machine_hart).0 ≡ false
unfolding check_ints
nothing_taken = refl

check_ints-Deliverable_example :
    (irq : ℕ) × In irq (11 ∷ 9 ∷ 3 ∷ 1 ∷ 7 ∷ 5 ∷ [])
    × Deliverable user_hart irq
    × (trap 7 0 true user_hart ≡ trap irq 0 true user_hart)
    × ((trap 7 0 true user_hart).mode ≡ (
        if bit irq (user_hart.csrs csr_mideleg) == 1
        then PrivilegeMode.supervisor
        else PrivilegeMode.machine))
check_ints-Deliverable_example =
    check_ints-Deliverable user_hart (trap 7 0 true user_hart) (omega arith) timer_taken

check_ints-idle_example :
    ((check_ints machine_hart).1 ≡ machine_hart)
    × ((irq : ℕ) → ¬ (In irq (11 ∷ 9 ∷ 3 ∷ 1 ∷ 7 ∷ 5 ∷ []) × Deliverable machine_hart irq))
check_ints-idle_example = check_ints-idle machine_hart (omega arith) nothing_taken
