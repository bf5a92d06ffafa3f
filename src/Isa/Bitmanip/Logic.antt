-- ===== src/Isa/Bitmanip/Logic.antt =====
-- src/sets/zbb.cpp: logic with a complement, counts, extremes, extensions, rotations and bytes.
pub mod Laws
mod Tests
use riscv_em.Base.{
  ℕ, zero, suc, ◌+◌, ◌-◌, ◌*◌, ◌/◌, ◌%◌, ◌^◌, bit_and, bit_or, bit_xor, u8, u16, u32, u64, not64,
  sub64, sext32, ltb, leb, ◌==◌, if◌then◌else◌, Bool, true, false, ◌&&◌, Option, none, some,
}
use riscv_em.Traps.{ExecReturn}
use riscv_em.Hart.{Hart}
use riscv_em.Memory.{Outcome}
use riscv_em.Isa.{InstructionData, result, slt64}
use riscv_em.Isa.Transfers.{extend}

-- `(x >> i) & 1`
abbrev pub bit_at : ℕ → ℕ → ℕ
bit_at i x = bit_and (x / 2 ^ i) 1

-- The loop from the highest bit down, with `n` bits left.
pub highest_bit : ℕ → ℕ → Option ℕ
highest_bit zero x = none
highest_bit (suc n) x = if bit_at n x == 1 then some n else highest_bit n x

-- The loop from bit `i` up, with `n` bits left; `c` is the value for no bit.
pub lowest_bit : ℕ → ℕ → ℕ → ℕ → ℕ
lowest_bit zero i c x = c
lowest_bit (suc n) i c x = if bit_at i x == 1 then i else lowest_bit n (i + 1) c x

-- The number of bits that are set from bit `i` on, on a `uint8_t`.
pub count_bits : ℕ → ℕ → ℕ → ℕ → ℕ
count_bits zero i bitcount x = bitcount
count_bits (suc n) i bitcount x = count_bits n (i + 1) (u8 (bitcount + bit_at i x)) x

-- `top - c`, where `c` is -1 if no bit is set.
abbrev pub leading_zeros : ℕ → ℕ → ℕ
leading_zeros w x = elim (highest_bit w x) [
  | some c ↦ sub64 (w - 1) c
  | none ↦ sub64 (w - 1) (2 ^ 64 - 1)
]

-- `x << s` and `x >> s` on `uint64_t`.
abbrev pub shl64 : ℕ → ℕ → Outcome ℕ
shl64 x s = if ltb s 64 then Outcome.done (u64 (x * 2 ^ s)) else Outcome.undefined

abbrev pub shr64 : ℕ → ℕ → Outcome ℕ
shr64 x s = if ltb s 64 then Outcome.done (x / 2 ^ s) else Outcome.undefined

-- `a | b`, where either operand can be undefined.
pub either : Outcome ℕ → Outcome ℕ → Outcome ℕ
either (Outcome.done a) (Outcome.done b) = Outcome.done (bit_or a b)
either _ _ = Outcome.undefined

pub write_rd : (ℕ → ℕ) → InstructionData → Hart → Outcome ℕ → Outcome (ExecReturn × Hart)
write_rd convert d h (Outcome.done v) = Outcome.done (result (convert v) d h)
write_rd convert d h _ = Outcome.undefined

-- `ORC.B`: each byte that is not zero becomes 0xff. The loop from byte `k` on.
pub orc_bytes : ℕ → ℕ → ℕ → ℕ → ℕ
orc_bytes zero k x out = out
orc_bytes (suc n) k x out =
    let b = u8 (x / 2 ^ (8 * k)) in
    orc_bytes n (k + 1) x (bit_or out ((if b == 0 then 0x00 else 0xff) * 2 ^ (8 * k)))

-- `REV8`: byte `k` goes to the place of byte `7 - k`.
pub rev_bytes : ℕ → ℕ → ℕ → ℕ → ℕ
rev_bytes zero k x out = out
rev_bytes (suc n) k x out =
    rev_bytes n (k + 1) x (bit_or out (bit_and (x / 2 ^ (k * 8)) 0xff * 2 ^ ((8 - 1 - k) * 8)))

pub exec_andn : InstructionData → Hart → ExecReturn × Hart
exec_andn d h = result (bit_and (h.gpr d.rs1) (not64 (h.gpr d.rs2))) d h

pub exec_orn : InstructionData → Hart → ExecReturn × Hart
exec_orn d h = result (bit_or (h.gpr d.rs1) (not64 (h.gpr d.rs2))) d h

pub exec_xnor : InstructionData → Hart → ExecReturn × Hart
exec_xnor d h = result (not64 (bit_xor (h.gpr d.rs1) (h.gpr d.rs2))) d h

pub exec_clz : InstructionData → Hart → ExecReturn × Hart
exec_clz d h = result (leading_zeros 64 (h.gpr d.rs1)) d h

pub exec_clzw : InstructionData → Hart → ExecReturn × Hart
exec_clzw d h = result (leading_zeros 32 (u32 (h.gpr d.rs1))) d h

pub exec_ctz : InstructionData → Hart → ExecReturn × Hart
exec_ctz d h = result (lowest_bit 64 0 64 (h.gpr d.rs1)) d h

pub exec_ctzw : InstructionData → Hart → ExecReturn × Hart
exec_ctzw d h = result (lowest_bit 32 0 32 (u32 (h.gpr d.rs1))) d h

pub exec_cpop : InstructionData → Hart → ExecReturn × Hart
exec_cpop d h = result (count_bits 64 0 0 (h.gpr d.rs1)) d h

pub exec_cpopw : InstructionData → Hart → ExecReturn × Hart
exec_cpopw d h = result (count_bits 32 0 0 (u32 (h.gpr d.rs1))) d h

pub exec_max : InstructionData → Hart → ExecReturn × Hart
exec_max d h = result (if slt64 (h.gpr d.rs1) (h.gpr d.rs2) then h.gpr d.rs2 else h.gpr d.rs1) d h

pub exec_maxu : InstructionData → Hart → ExecReturn × Hart
exec_maxu d h = result (if ltb (h.gpr d.rs1) (h.gpr d.rs2) then h.gpr d.rs2 else h.gpr d.rs1) d h

pub exec_min : InstructionData → Hart → ExecReturn × Hart
exec_min d h = result (if slt64 (h.gpr d.rs2) (h.gpr d.rs1) then h.gpr d.rs2 else h.gpr d.rs1) d h

pub exec_minu : InstructionData → Hart → ExecReturn × Hart
exec_minu d h = result (if ltb (h.gpr d.rs2) (h.gpr d.rs1) then h.gpr d.rs2 else h.gpr d.rs1) d h

pub exec_sext_b : InstructionData → Hart → ExecReturn × Hart
exec_sext_b d h = result (extend 7 (u8 (h.gpr d.rs1))) d h

pub exec_sext_h : InstructionData → Hart → ExecReturn × Hart
exec_sext_h d h = result (extend 15 (u16 (h.gpr d.rs1))) d h

pub exec_zext_h : InstructionData → Hart → ExecReturn × Hart
exec_zext_h d h = result (bit_and (h.gpr d.rs1) 0xffff) d h

pub exec_rol : InstructionData → Hart → Outcome (ExecReturn × Hart)
exec_rol d h =
    write_rd (λ v. v) d h
      (either (shl64 (h.gpr d.rs1) (bit_and (h.gpr d.rs2) 0x3f))
        (shr64 (h.gpr d.rs1) (64 - bit_and (h.gpr d.rs2) 0x3f)))

pub exec_rolw : InstructionData → Hart → Outcome (ExecReturn × Hart)
exec_rolw d h = write_rd (sext32) d h (
    either (shl64 (u32 (h.gpr d.rs1)) (bit_and (h.gpr d.rs2) 0x1f))
      (shr64 (u32 (h.gpr d.rs1)) (32 - bit_and (h.gpr d.rs2) 0x1f)))

pub exec_ror : InstructionData → Hart → Outcome (ExecReturn × Hart)
exec_ror d h =
    write_rd (λ v. v) d h
      (either (shr64 (h.gpr d.rs1) (bit_and (h.gpr d.rs2) 0x3f))
        (shl64 (h.gpr d.rs1) (64 - bit_and (h.gpr d.rs2) 0x3f)))

pub exec_rori : InstructionData → Hart → Outcome (ExecReturn × Hart)
exec_rori d h =
    write_rd (λ v. v) d h
      (either (shr64 (h.gpr d.rs1) d.imm) (shl64 (h.gpr d.rs1) (sub64 64 d.imm)))

pub exec_roriw : InstructionData → Hart → Outcome (ExecReturn × Hart)
exec_roriw d h =
    write_rd (λ v. v) d h
      (either (shr64 (u32 (h.gpr d.rs1)) d.imm) (shl64 (u32 (h.gpr d.rs1)) (sub64 32 d.imm)))

pub exec_rorw : InstructionData → Hart → Outcome (ExecReturn × Hart)
exec_rorw d h = write_rd (sext32) d h (
    either (shr64 (u32 (h.gpr d.rs1)) (bit_and (h.gpr d.rs2) 0x1f))
      (shl64 (u32 (h.gpr d.rs1)) (32 - bit_and (h.gpr d.rs2) 0x1f)))

pub exec_orc_b : InstructionData → Hart → ExecReturn × Hart
exec_orc_b d h = result (orc_bytes 8 0 (h.gpr d.rs1) 0) d h

pub exec_rev8 : InstructionData → Hart → ExecReturn × Hart
exec_rev8 d h = result (rev_bytes 8 0 (h.gpr d.rs1) 0) d h
