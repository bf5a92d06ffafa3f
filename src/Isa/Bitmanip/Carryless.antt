-- ===== src/Isa/Bitmanip/Carryless.antt =====
-- src/sets/zbc.cpp: products without carries.
use riscv_em.Base.{
  ℕ, zero, suc, ◌+◌, ◌-◌, ◌*◌, ◌/◌, ◌^◌, bit_and, bit_xor, u64, ◌==◌, if◌then◌else◌,
}
use riscv_em.Traps.{ExecReturn}
use riscv_em.Hart.{Hart}
use riscv_em.Isa.{InstructionData, result}

-- The loop from bit `i` on, with `n` rounds left: `part i` is added for each bit of `rs2`.
pub carryless : (ℕ → ℕ) → ℕ → ℕ → ℕ → ℕ → ℕ
carryless part zero i rs2 out = out
carryless part (suc n) i rs2 out =
    carryless part n (i + 1) rs2
      (if bit_and (rs2 / 2 ^ i) 1 == 0 then out else bit_xor out (part i))

pub exec_clmul : InstructionData → Hart → ExecReturn × Hart
exec_clmul d h = result (carryless (λ i. u64 (h.gpr d.rs1 * 2 ^ i)) 64 0 (h.gpr d.rs2) 0) d h

pub exec_clmulh : InstructionData → Hart → ExecReturn × Hart
exec_clmulh d h = result (carryless (λ i. h.gpr d.rs1 / 2 ^ (64 - i)) 63 1 (h.gpr d.rs2) 0) d h

pub exec_clmulr : InstructionData → Hart → ExecReturn × Hart
exec_clmulr d h = result (carryless (λ i. h.gpr d.rs1 / 2 ^ (63 - i)) 64 0 (h.gpr d.rs2) 0) d h
