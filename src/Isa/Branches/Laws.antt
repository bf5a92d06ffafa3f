-- ===== src/Isa/Branches/Laws.antt =====
-- The branches by pairs, and the targets of the jumps.
use riscv_em.Base.{ℕ, ◌-◌, ◌%◌, ◌^◌, ◌≡◌, ◌⊎◌, add64, bit_and, arith}
use riscv_em.Base.Bits.{bit-bit_and}
use riscv_em.Traps.{ExecReturn}
use riscv_em.Hart.{Hart}
use riscv_em.Hart.Trap.{changed_pc}
use riscv_em.Isa.{InstructionData, next}
use riscv_em.Isa.Branches.{exec_beq, exec_bne, exec_blt, exec_bge, exec_bltu, exec_bgeu, exec_jalr}

-- The two ways of a branch whose target is even.
unfoldable Taken : InstructionData → Hart → ExecReturn × Hart → Type 0
Taken d h r = r ≡ (changed_pc, record h { pc = add64 h.pc d.imm })

unfoldable Passed : Hart → ExecReturn × Hart → Type 0
Passed h r = r ≡ (next, h)

-- Exactly one of the two branches is taken.
pub OneTaken : InstructionData → Hart → ExecReturn × Hart → ExecReturn × Hart → Type 0
OneTaken d h p q = (Taken d h p × Passed h q) ⊎ (Passed h p × Taken d h q)

module _ (d : InstructionData) (h : Hart) (even : add64 h.pc d.imm % 2 ≡ 0) where
  -- BEQ and BNE, BLT and BGE, BLTU and BGEU on the same registers and target.
  branch_pairs :
      OneTaken d h (exec_beq d h) (exec_bne d h)
      × OneTaken d h (exec_blt d h) (exec_bge d h)
      × OneTaken d h (exec_bltu d h) (exec_bgeu d h)
  unfolding exec_beq exec_bne exec_blt exec_bge exec_bltu exec_bgeu OneTaken Taken Passed
  branch_pairs = ground arith

mask_even : (x : ℕ) → bit_and x (2 ^ 64 - 2) % 2 ≡ 0
mask_even x = ground (arith, bit-bit_and 0 x (2 ^ 64 - 2))

-- JALR never reports a misaligned target: it jumps, and links to the next instruction, and its
-- target is even.
pub exec_jalr_jumps :
    (d : InstructionData) (h : Hart)
    → ((exec_jalr d h).0 ≡ changed_pc)
      × ((exec_jalr d h).1.pc % 2 ≡ 0)
      × ((exec_jalr d h).1.gpr d.rd ≡ add64 h.pc 4)
unfolding exec_jalr
exec_jalr_jumps d h = ground (arith, mask_even (add64 (h.gpr d.rs1) d.imm))
