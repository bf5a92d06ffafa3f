-- ===== src/Hart/Interrupts/Laws.antt =====
-- Which interrupt `Hart::check_ints` takes, and where.
use riscv_em.Base.{
  In, ℕ, ◌^◌, ◌<◌, bit_and, not64, ◌≡◌, ap, ◌↔◌, ◌⊎◌, inl, inr, arith, true, false, ◌==◌,
  if◌then◌else◌, [], ◌∷◌, Option, refl, ◌∙◌, none, some,
}
use riscv_em.Base.Bits.{bit, bit-lt, bit-zero, bit-bit_and, bit-complement}
use riscv_em.Traps.{PrivilegeMode, irq_priority}
use riscv_em.Hart.{Hart}
use riscv_em.Hart.Csr.{csr_mideleg, se_mask}
use riscv_em.Hart.Trap.{trap}
use riscv_em.Hart.Trap.Laws.{mode-trap, delegate_to_s-interrupt}
use riscv_em.Hart.Interrupts.{
  first_pending, m_global, s_global, pending_m, pending_s, chosen, check_ints,
}
use riscv_em.Hart.Interrupts.First.{
  first_pending-some, first_pending-none, first_pending-append, first_pending-head,
}
use riscv_em.Hart.Interrupts.Heard.{
  MachineHears, SupervisorHears, m_global-MachineHears, s_global-SupervisorHears,
}

module _ (h : Hart) (irq : ℕ) where
  -- An interrupt that is pending, enabled, not delegated, and that machine mode hears.
  pub record ForMachine : Type 0 where
    pub raised : bit irq h.ip ≡ 1
    pub enabled : bit irq h.ie ≡ 1
    pub kept : bit irq (h.csrs csr_mideleg) ≡ 0
    pub unmasked : MachineHears h.mode h.status

  -- One that is delegated, has the number 1, 5 or 9, and that supervisor mode hears.
  pub record ForSupervisor : Type 0 where
    pub raised : bit irq h.ip ≡ 1
    pub enabled : bit irq h.ie ≡ 1
    pub delegated : bit irq (h.csrs csr_mideleg) ≡ 1
    pub supervised : bit irq 0x222 ≡ 1
    pub unmasked : SupervisorHears h.mode h.status

  abbrev pub Deliverable : Type 0
  Deliverable = ForMachine ⊎ ForSupervisor

below_64 : (irq : ℕ) → In irq irq_priority → irq < 64
unfolding In
below_64 irq i = ground arith

bit-pending_m :
    (h : Hart) (irq : ℕ)
    → h.csrs csr_mideleg < 2 ^ 64
    → irq < 64
    → (bit irq (pending_m h) ≡ 1)
      ↔ ((bit irq h.ip ≡ 1) × (bit irq h.ie ≡ 1) × (bit irq (h.csrs csr_mideleg) ≡ 0))
unfolding pending_m
bit-pending_m h irq hm hi = ground (
  arith,
  bit-bit_and irq (bit_and h.ip h.ie) (not64 (h.csrs csr_mideleg)),
  bit-bit_and irq h.ip h.ie,
  bit-complement 64 irq (h.csrs csr_mideleg) hm hi,
  bit-lt irq h.ip,
  bit-lt irq h.ie,
  bit-lt irq (h.csrs csr_mideleg),
)

bit-pending_s :
    (h : Hart) (irq : ℕ)
    → (bit irq (pending_s h) ≡ 1) ↔ (
        (bit irq h.ip ≡ 1)
        × (bit irq h.ie ≡ 1)
        × (bit irq (h.csrs csr_mideleg) ≡ 1)
        × (bit irq se_mask ≡ 1))
unfolding pending_s
bit-pending_s h irq = ground (
  arith,
  bit-bit_and irq (bit_and (bit_and h.ip se_mask) (h.csrs csr_mideleg)) (bit_and h.ie se_mask),
  bit-bit_and irq (bit_and h.ip se_mask) (h.csrs csr_mideleg),
  bit-bit_and irq h.ip se_mask,
  bit-bit_and irq h.ie se_mask,
  bit-lt irq h.ip,
  bit-lt irq h.ie,
  bit-lt irq se_mask,
  bit-lt irq (h.csrs csr_mideleg),
)

choice_m :
    (h : Hart) (irq : ℕ)
    → h.csrs csr_mideleg < 2 ^ 64
    → m_global h ≡ true
    → first_pending irq_priority (pending_m h) ≡ some irq
    → In irq irq_priority × Deliverable h irq
choice_m h irq hm g e =
    let (i, b) = first_pending-some irq_priority (pending_m h) {irq = irq} e in
    let (r, n, k) = (bit-pending_m h irq hm (below_64 irq i)).0 b in
    (
      i,
      inl (record { raised = r; enabled = n; kept = k; unmasked = (m_global-MachineHears h).0 g }),
    )

choice_s :
    (h : Hart) (irq : ℕ)
    → s_global h ≡ true
    → first_pending irq_priority (pending_s h) ≡ some irq
    → In irq irq_priority × Deliverable h irq
choice_s h irq g e =
    let (i, b) = first_pending-some irq_priority (pending_s h) {irq = irq} e in
    let (r, n, d, v) = (bit-pending_s h irq).0 b in
    (
      i,
      inr (record {
        raised = r;
        enabled = n;
        delegated = d;
        supervised = v;
        unmasked = (s_global-SupervisorHears h).0 g;
      }),
    )

chosen-Deliverable :
    (h : Hart) (irq : ℕ)
    → h.csrs csr_mideleg < 2 ^ 64
    → chosen h ≡ some irq
    → In irq irq_priority × Deliverable h irq
unfolding chosen
chosen-Deliverable h irq hm e = ground (arith, choice_m h irq hm, choice_s h irq)

chosen-none :
    (h : Hart) (irq : ℕ)
    → h.csrs csr_mideleg < 2 ^ 64
    → chosen h ≡ none
    → In irq irq_priority
    → ¬ Deliverable h irq
unfolding chosen
chosen-none h irq hm e i (inl d) = ground (
  arith,
  first_pending-none irq_priority (pending_m h) irq,
  (bit-pending_m h irq hm (below_64 irq i)).1 (d.raised, d.enabled, d.kept),
  (m_global-MachineHears h).1 d.unmasked,
  i,
)
chosen-none h irq hm e i (inr d) = ground (
  arith,
  first_pending-none irq_priority (pending_s h) irq,
  (bit-pending_s h irq).1 (d.raised, d.enabled, d.delegated, d.supervised),
  (s_global-SupervisorHears h).1 d.unmasked,
  i,
)

no_common_bit : (h : Hart) (irq : ℕ) → bit_and h.ip h.ie ≡ 0 → ¬ Deliverable h irq
no_common_bit h irq e d =
    ground (arith, bit-bit_and irq h.ip h.ie, ap (λ (t : ℕ). bit irq t) e, bit-zero irq, d)

entered_mode :
    (h : Hart) (irq : ℕ)
    → Deliverable h irq
    → (trap irq 0 true h).mode ≡ (
        if bit irq (h.csrs csr_mideleg) == 1
        then PrivilegeMode.supervisor
        else PrivilegeMode.machine)
unfolding SupervisorHears
entered_mode h irq d = ground (arith, mode-trap irq 0 true h, delegate_to_s-interrupt irq h, d)

idle : (h : Hart) → (check_ints h).0 ≡ false → (bit_and h.ip h.ie ≡ 0) ⊎ (chosen h ≡ none)
unfolding check_ints
idle h e = ground arith

taken :
    (h h' : Hart)
    → check_ints h ≡ (true, h')
    → (irq : ℕ) × (chosen h ≡ some irq) × (h' ≡ trap irq 0 true h)
unfolding check_ints
taken h h' e = ground arith

-- An interrupt is taken only if it is one of the six that the emulator knows, is pending and enabled,
-- and either is not delegated and is heard by machine mode (from a lower mode, or with MIE set), or
-- is delegated, is a supervisor's and is heard by supervisor mode (from user mode, or from supervisor
-- mode with SIE set). The trap is entered for it, and in supervisor mode exactly if it is delegated.
pub check_ints-Deliverable :
    (h h' : Hart)
    → h.csrs csr_mideleg < 2 ^ 64
    → check_ints h ≡ (true, h')
    → (irq : ℕ) × In irq (11 ∷ 9 ∷ 3 ∷ 1 ∷ 7 ∷ 5 ∷ [])
      × Deliverable h irq
      × (h' ≡ trap irq 0 true h)
      × (h'.mode ≡ (
          if bit irq (h.csrs csr_mideleg) == 1
          then PrivilegeMode.supervisor
          else PrivilegeMode.machine))
check_ints-Deliverable h h' hm e =
    let (irq, c, t) = taken h h' e in
    let (i, d) = chosen-Deliverable h irq hm c in (irq, i, d, t, rw t (entered_mode h irq d))

-- No interrupt is taken only if none of the six is deliverable: pending and enabled, and either not
-- delegated and heard by machine mode (from a lower mode, or with MIE set), or delegated, a
-- supervisor's and heard by supervisor mode (from user mode, or from supervisor mode with SIE set).
-- The hart is then left as it is.
pub check_ints-idle :
    (h : Hart)
    → h.csrs csr_mideleg < 2 ^ 64
    → (check_ints h).0 ≡ false
    → ((check_ints h).1 ≡ h)
      × ((irq : ℕ) → ¬ (In irq (11 ∷ 9 ∷ 3 ∷ 1 ∷ 7 ∷ 5 ∷ []) × Deliverable h irq))
unfolding check_ints
check_ints-idle h hm e = (
  ground arith,
  λ irq (i, d). elim (idle h e) [
    | inl z ↦ no_common_bit h irq z d
    | inr n ↦ chosen-none h irq hm n i d
  ],
)

timer_next :
    (p : ℕ) (first : Option ℕ)
    → bit 7 p ≡ 1
    → first_pending (11 ∷ 9 ∷ 3 ∷ 1 ∷ []) p ≡ first
    → (irq : ℕ) × (first_pending irq_priority p ≡ some irq)
      × ((irq ≡ 7) ⊎ (In irq (11 ∷ 9 ∷ 3 ∷ 1 ∷ []) × (bit irq p ≡ 1)))
timer_next p (some irq) up e = (
  irq,
  first_pending-append (11 ∷ 9 ∷ 3 ∷ 1 ∷ []) (7 ∷ 5 ∷ []) p ∙ rw e refl,
  inr (first_pending-some (11 ∷ 9 ∷ 3 ∷ 1 ∷ []) p {irq = irq} e),
)
timer_next p none up e = (
  7,
  first_pending-append (11 ∷ 9 ∷ 3 ∷ 1 ∷ []) (7 ∷ 5 ∷ []) p
      ∙ rw e (first_pending-head 7 (5 ∷ []) p up),
  inl refl,
)

-- A machine timer interrupt that is deliverable is taken, or one for machine mode that stands before
-- it.
pub check_ints-timer :
    (h : Hart)
    → h.csrs csr_mideleg < 2 ^ 64
    → ForMachine h 7
    → (irq : ℕ) × (check_ints h ≡ (true, trap irq 0 true h))
      × ((irq ≡ 7) ⊎ (In irq (11 ∷ 9 ∷ 3 ∷ 1 ∷ []) × ForMachine h irq))
unfolding check_ints chosen
check_ints-timer h hm d =
    let up = (bit-pending_m h 7 hm (omega arith)).1 (d.raised, d.enabled, d.kept) in
    let deliverable : Deliverable h 7 = inl d in
    let (irq, first, which) = timer_next (pending_m h) _ up refl in
    let some_bit : (bit_and h.ip h.ie == 0) ≡ false =
      ground (arith, no_common_bit h 7, deliverable) in
    (
      irq,
      rw (some_bit, (m_global-MachineHears h).1 d.unmasked, first) refl,
      elim which [
        | inl timer ↦ inl timer
        | inr (before, bit_up) ↦ inr (
          before,
          let in_order : In irq irq_priority = unfold In in ground (arith, before) in
              let (r, n, k) = (bit-pending_m h irq hm (below_64 irq in_order)).0 bit_up in
              record { raised = r; enabled = n; kept = k; unmasked = d.unmasked },
        )
      ],
    )
