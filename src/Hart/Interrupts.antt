-- ===== src/Hart/Interrupts.antt =====
-- `Hart::check_ints` and `Hart::int_local_pending` of src/hart.cpp.
pub mod First
pub mod Heard
pub mod Laws
pub mod Kept
mod Tests
use riscv_em.Base.{
  ℕ, ◌^◌, bit_and, bit_or, not64, nonzero, ltb, ◌==◌, if◌then◌else◌, Bool, true, false, ◌&&◌, List,
  [], ◌∷◌, Option, none, some,
}
use riscv_em.Traps.{PrivilegeMode, mode_code, irq_priority}
use riscv_em.Hart.{Hart}
use riscv_em.Hart.Trap.{trap, is_machine, is_supervisor}
use riscv_em.Hart.Csr.{csr_mideleg, se_mask, status_mie, status_sie}

pub int_local_pending : Hart → Bool
int_local_pending h =
    if bit_and h.ip h.ie == 0
    then false
    else let sip = bit_and h.ip se_mask in
      let sie = bit_and h.ie se_mask in
      let mideleg = h.csrs csr_mideleg in
      let pending = bit_and (bit_and h.ip h.ie) (not64 mideleg) in
      let pending_s =
        if ltb (mode_code PrivilegeMode.supervisor) (mode_code h.mode)
        then 0
        else bit_and (bit_and sip sie) mideleg in
      nonzero (bit_or pending pending_s)

-- The loop over `irq_priority`: the first interrupt whose bit is set.
pub first_pending : List ℕ → ℕ → Option ℕ
first_pending [] pending = none
first_pending (irq ∷ rest) pending =
    if nonzero (bit_and pending (2 ^ irq)) then some irq else first_pending rest pending

unfoldable pub m_global : Hart → Bool
m_global h =
    if is_machine h.mode
    then nonzero (status_mie h.status)
    else ltb (mode_code h.mode) (mode_code PrivilegeMode.machine)

pub s_global : Hart → Bool
s_global h =
    if is_supervisor h.mode
    then nonzero (status_sie h.status)
    else ltb (mode_code h.mode) (mode_code PrivilegeMode.supervisor)

-- `ip & ie & ~mideleg`
pub pending_m : Hart → ℕ
pending_m h = bit_and (bit_and h.ip h.ie) (not64 (h.csrs csr_mideleg))

-- `(sip & mideleg) & sie`
pub pending_s : Hart → ℕ
pending_s h = bit_and (bit_and (bit_and h.ip se_mask) (h.csrs csr_mideleg)) (bit_and h.ie se_mask)

-- The interrupt that is taken, from the machine's set first and then from the supervisor's.
pub chosen : Hart → Option ℕ
chosen h =
    let from_s = if s_global h then first_pending irq_priority (pending_s h) else none in
    if m_global h
    then elim (first_pending irq_priority (pending_m h)) [ some irq ↦ some irq | none ↦ from_s ]
    else from_s

pub check_ints : Hart → Bool × Hart
check_ints h =
    if bit_and h.ip h.ie == 0
    then (false, h)
    else elim (chosen h) [ some irq ↦ (true, trap irq 0 true h) | none ↦ (false, h) ]
