-- ===== src/Hart.antt =====
-- include/hart.hpp: the state of a hardware thread. Built without the JIT (`USE_JIT` unset) and
-- without the floating-point registers. `GPR` and `csrs` are functions of the index: every index
-- that the code computes is below 32 (five bits) and below 4096 (twelve bits).
pub mod Csr
pub mod Samples
pub mod Trap
pub mod Access
pub mod Interrupts
use riscv_em.Base.{ℕ, ◌==◌, if◌then◌else◌, Bool}
use riscv_em.Traps.{PrivilegeMode}

pub record Reservation : Type 0 where
  pub vaddr : ℕ
  pub size : ℕ
  pub valid : Bool

pub record Hart : Type 0 where
  pub id : ℕ
  pub gpr : ℕ → ℕ
  pub csrs : ℕ → ℕ
  pub pc : ℕ
  pub mode : PrivilegeMode
  pub status : ℕ
  pub ie : ℕ
  pub ip : ℕ
  pub stimecmp : ℕ
  pub fcsr : ℕ
  pub wfi : Bool
  pub reservation : Reservation

-- An assignment to one element of an array.
abbrev pub update : (ℕ → ℕ) → ℕ → ℕ → ℕ → ℕ
update f i v j = if j == i then v else f j

-- `GPR[i] = v`, with the value as the 64-bit pattern that it is.
abbrev pub set_gpr : ℕ → ℕ → Hart → Hart
set_gpr i v h = record h { gpr = update h.gpr i v }
