-- ===== src/Isa/Immediates.antt =====
-- include/decode.hpp: the fields and the immediates of a 32-bit instruction word.
use riscv_em.Base.{ℕ, ◌+◌, ◌-◌, ◌*◌, ◌/◌, ◌^◌, bit_and, bit_or, u32, sext32}
use riscv_em.Isa.{shift_right_signed}

-- `sext`, returned as a 64-bit pattern: left by `32 - bits`, then right with the sign.
pub sext : ℕ → ℕ → ℕ
sext val bits =
    let shift = 32 - bits in sext32 (shift_right_signed 31 (u32 (val * 2 ^ shift)) shift)

pub get_bits : ℕ → ℕ → ℕ → ℕ
get_bits inst hi lo = bit_and (inst / 2 ^ lo) (2 ^ (hi - lo + 1) - 1)

pub d_rd : ℕ → ℕ
d_rd inst = bit_and (inst / 2 ^ 7) 0x1f

pub d_rs1 : ℕ → ℕ
d_rs1 inst = bit_and (inst / 2 ^ 15) 0x1f

pub d_rs2 : ℕ → ℕ
d_rs2 inst = bit_and (inst / 2 ^ 20) 0x1f

pub imm_zicsr : ℕ → ℕ
imm_zicsr inst = inst / 2 ^ 20

pub imm_i : ℕ → ℕ
imm_i inst = sext (inst / 2 ^ 20) 12

pub imm_s : ℕ → ℕ
imm_s inst = sext (bit_or (bit_and (inst / 2 ^ 7) 0x1f) (bit_and (inst / 2 ^ 20) 0xfe0)) 12

pub imm_b : ℕ → ℕ
imm_b inst =
    sext
      (bit_or
        (bit_or (bit_or (get_bits inst 11 8 * 2 ^ 1) (get_bits inst 30 25 * 2 ^ 5))
          (get_bits inst 7 7 * 2 ^ 11))
        (get_bits inst 31 31 * 2 ^ 12))
      13

pub imm_u : ℕ → ℕ
imm_u inst = sext32 (bit_and inst 0xfffff000)

pub imm_j : ℕ → ℕ
imm_j inst =
    sext
      (bit_or
        (bit_or (bit_or (get_bits inst 30 21 * 2 ^ 1) (get_bits inst 20 20 * 2 ^ 11))
          (get_bits inst 19 12 * 2 ^ 12))
        (get_bits inst 31 31 * 2 ^ 20))
      21

pub shamt : ℕ → ℕ
shamt inst = u32 (bit_and (imm_i inst) 0x1f)

pub shamt64 : ℕ → ℕ
shamt64 inst = u32 (bit_and (imm_i inst) 0x3f)
