-- ===== src/Isa/Compressed/Immediates.antt =====
-- include/decode.hpp: the fields and the immediates of a compressed instruction.
use riscv_em.Base.{ℕ, ◌*◌, ◌/◌, ◌^◌, bit_and, bit_or, u16}
use riscv_em.Isa.Immediates.{sext, get_bits}

-- `(inst >> from & mask) << to`
abbrev pub piece : ℕ → ℕ → ℕ → ℕ → ℕ
piece inst from mask to = bit_and (inst / 2 ^ from) mask * 2 ^ to

-- The parameter of the first three is 16 bits wide.
pub d_c_rd : ℕ → ℕ
d_c_rd inst = bit_and (u16 inst / 2 ^ 2) 0x7

pub d_c_rs1 : ℕ → ℕ
d_c_rs1 inst = bit_and (u16 inst / 2 ^ 7) 0x7

pub d_c_rs2 : ℕ → ℕ
d_c_rs2 inst = bit_and (u16 inst / 2 ^ 2) 0x1f

pub d_c_uimm : ℕ → ℕ
d_c_uimm inst =
    bit_or (bit_or (bit_or (piece inst 1 0x3c0 0) (piece inst 7 0x30 0)) (piece inst 2 0x8 0))
      (piece inst 4 0x4 0)

pub d_c_uimm_cl : ℕ → ℕ
d_c_uimm_cl inst =
    bit_or (bit_or (get_bits inst 6 6 * 2 ^ 2) (piece inst 10 0x7 3)) (get_bits inst 5 5 * 2 ^ 6)

pub d_c_uimm_cl1 : ℕ → ℕ
d_c_uimm_cl1 inst =
    bit_or (bit_or (get_bits inst 6 6 * 2 ^ 7) (piece inst 10 0x7 3)) (get_bits inst 5 5 * 2 ^ 6)

pub d_c_nzimm : ℕ → ℕ
d_c_nzimm inst = sext (bit_or (piece inst 2 0x1f 0) (piece inst 12 0x1 5)) 6

pub d_c_uimm_arith : ℕ → ℕ
d_c_uimm_arith inst = bit_or (piece inst 2 0x1f 0) (piece inst 12 0x1 5)

pub d_c_nzimm_9 : ℕ → ℕ
d_c_nzimm_9 inst =
    sext
      (bit_or
        (bit_or
          (bit_or (bit_or (bit_or (piece inst 6 1 4) (piece inst 2 1 5)) (piece inst 5 1 6))
            (piece inst 3 1 7))
          (piece inst 4 1 8))
        (piece inst 12 1 9))
      10

pub d_c_j_imm : ℕ → ℕ
d_c_j_imm inst =
    sext
      (bit_or
        (bit_or
          (bit_or
            (bit_or
              (bit_or (bit_or (bit_or (piece inst 3 7 1) (piece inst 11 1 4)) (piece inst 2 1 5))
                (piece inst 7 1 6))
              (piece inst 6 1 7))
            (piece inst 9 1 8))
          (piece inst 10 1 9))
        (bit_or (piece inst 8 1 10) (piece inst 12 1 11)))
      12

pub d_c_b_imm : ℕ → ℕ
d_c_b_imm inst =
    sext
      (bit_or
        (bit_or (bit_or (bit_or (piece inst 3 0x3 1) (piece inst 10 0x3 3)) (piece inst 2 0x1 5))
          (piece inst 5 0x3 6))
        (piece inst 12 0x1 8))
      9

pub d_c_uimm_lwsp : ℕ → ℕ
d_c_uimm_lwsp inst = bit_or (bit_or (piece inst 4 0x7 2) (piece inst 12 0x1 5)) (piece inst 2 0x3 6)

pub d_c_uimm_ldsp : ℕ → ℕ
d_c_uimm_ldsp inst =
    bit_or (bit_or (bit_or (piece inst 5 0x3 3) (piece inst 12 0x1 5)) (piece inst 2 0x3 6))
      (piece inst 4 0x1 8)

pub d_c_uimm_swsp : ℕ → ℕ
d_c_uimm_swsp inst = bit_or (bit_or (piece inst 9 0xf 2) (piece inst 7 0x1 6)) (piece inst 8 0x1 7)

pub d_c_uimm_sdsp : ℕ → ℕ
d_c_uimm_sdsp inst =
    bit_or (bit_or (bit_or (piece inst 10 0x7 3) (piece inst 7 0x1 6)) (piece inst 8 0x1 7))
      (piece inst 9 0x1 8)
