-- ===== src/Isa/Zicsr/Laws.antt =====
-- What the checks of the control register instructions promise.
use riscv_em.Base.{ℕ, ◌/◌, ◌%◌, ◌==◌, ◌||◌, if◌then◌else◌, List, [], ◌∷◌, In, ◌≡◌, ◌⊎◌, arith}
use riscv_em.Traps.{PrivilegeMode}
use riscv_em.Hart.{Hart, set_gpr}
use riscv_em.Hart.Trap.{illegal}
use riscv_em.Hart.Access.{csr_read}
use riscv_em.Isa.{InstructionData, next}
use riscv_em.Isa.Zicsr.{exec_csrrs, exec_csrrc, exec_csrrsi, exec_csrrci}

-- The least mode that may use a register, as a number: bits 9 and 8 of the register's number in the
-- blocks 1, 3, 11 and 15 of 256 registers, and user mode in every other block.
unfoldable pub least_mode : ℕ → ℕ
least_mode csr =
    let block = csr / 0x100 in
    if (block == 1) || (block == 3) || (block == 11) || (block == 15) then block % 4 else 0

-- The registers that no instruction may use.
abbrev pub absent : List ℕ
absent =
    0x10c ∷ 0x10d ∷ 0x10e ∷ 0x10f ∷ 0x30c ∷ 0x30d ∷ 0x30e ∷ 0x30f ∷ 0x321 ∷ 0x7a0 ∷ 0x7a1 ∷ 0x7a2
    ∷ 0x7a3 ∷ 0xb02 ∷ 0xda0 ∷ 0xfb0 ∷ []

-- The registers that can be read only: 0xf11 to 0xf14 and the 32 from 0xc00 on.
unfoldable pub ReadOnly : ℕ → Type 0
ReadOnly csr = In csr (0xf11 ∷ 0xf12 ∷ 0xf13 ∷ 0xf14 ∷ []) ⊎ (csr / 0x20 ≡ 0x60)

-- The least mode of a level.
level_code : PrivilegeMode → ℕ
level_code PrivilegeMode.machine = 3
level_code PrivilegeMode.supervisor = 1
level_code PrivilegeMode.hypervisor = 0
level_code PrivilegeMode.user = 0

module _ (d : InstructionData) (h : Hart) where
  -- With an rs1 field of 0 the four instructions that set or clear bits are the same: each of them
  -- is refused as an illegal instruction, or reads the register into rd and writes no register of
  -- that kind itself.
  reads_only :
      d.rs1 ≡ 0
      → (exec_csrrs d h ≡ exec_csrrc d h)
        × (exec_csrrc d h ≡ exec_csrrsi d h)
        × (exec_csrrsi d h ≡ exec_csrrci d h)
        × ((exec_csrrs d h ≡ (illegal d.inst, h))
            ⊎ (exec_csrrs d h ≡ (next, set_gpr d.rd (csr_read d.imm h).0 (csr_read d.imm h).1)))
  unfolding exec_csrrs exec_csrrc exec_csrrsi exec_csrrci
  reads_only x0 = ground arith
