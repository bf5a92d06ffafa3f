-- ===== src/Execution/Calls.antt =====
-- The functions behind the names that the decoder holds: what a call of each one does to a hart and
-- the bus. FENCE.I also clears the cache of the decoder, which Execution/Cached has.
use riscv_em.Base.{ℕ}
use riscv_em.Traps.{ExecReturn}
use riscv_em.Hart.{Hart}
use riscv_em.Memory.{Outcome}
use riscv_em.Memory.Mmio.{Mmio}
use riscv_em.Isa.{InstructionData, next}
use riscv_em.Decoder.Op.{Op}
use riscv_em.Isa.Integer.{
  exec_add, exec_addw, exec_sub, exec_subw, exec_xor, exec_or, exec_and, exec_sll, exec_sllw,
  exec_srl, exec_srlw, exec_sra, exec_sraw, exec_slt, exec_sltu, exec_addi, exec_addiw, exec_xori,
  exec_ori, exec_andi, exec_slli, exec_slliw, exec_srliw, exec_sraiw, exec_srli, exec_srai,
  exec_slti, exec_sltiu, exec_lui, exec_auipc, exec_fence,
}
use riscv_em.Isa.Transfers.{
  Step, exec_lb, exec_lh, exec_lw, exec_ld, exec_lbu, exec_lhu, exec_lwu, exec_sb, exec_sh, exec_sw,
  exec_sd,
}
use riscv_em.Isa.Branches.{
  exec_beq, exec_bne, exec_blt, exec_bge, exec_bltu, exec_bgeu, exec_jal, exec_jalr, exec_ecall,
  exec_ebreak,
}
use riscv_em.Isa.Muldiv.{
  exec_mul, exec_mulw, exec_mulh, exec_mulhsu, exec_mulhu, exec_div, exec_divu, exec_divuw,
  exec_divw, exec_rem, exec_remu, exec_remuw, exec_remw,
}
use riscv_em.Isa.Atomic.{
  exec_amoswap_w, exec_amoadd_w, exec_amoand_w, exec_amoxor_w, exec_amoor_w, exec_amomin_w,
  exec_amominu_w, exec_amomax_w, exec_amomaxu_w, exec_lr_w, exec_sc_w, exec_amoswap_d,
  exec_amoadd_d, exec_amoand_d, exec_amoxor_d, exec_amoor_d, exec_amomin_d, exec_amominu_d,
  exec_amomax_d, exec_amomaxu_d, exec_lr_d, exec_sc_d,
}
use riscv_em.Isa.Compressed.{
  exec_c_addi4spn, exec_c_lw, exec_c_ld, exec_c_sw, exec_c_sd, exec_c_nop, exec_c_addi,
  exec_c_addiw, exec_c_li, exec_c_lui_addi16sp, exec_c_srli, exec_c_srai, exec_c_andi, exec_c_sub,
  exec_c_xor, exec_c_or, exec_c_and, exec_c_subw, exec_c_addw, exec_c_j, exec_c_beqz, exec_c_bnez,
  exec_c_slli, exec_c_lwsp, exec_c_ldsp, exec_c_jr, exec_c_mv, exec_c_ebreak, exec_c_jalr,
  exec_c_add, exec_c_swsp, exec_c_sdsp,
}
use riscv_em.Hart.Trap.{exec_mret, exec_sret}
use riscv_em.Isa.Privileged.{exec_wfi, exec_sfence_vma}
use riscv_em.Isa.Zicsr.{exec_csrrw, exec_csrrs, exec_csrrc, exec_csrrwi, exec_csrrsi, exec_csrrci}
use riscv_em.Isa.Bitmanip.Address.{
  exec_add_uw, exec_sh1add, exec_sh1add_uw, exec_sh2add, exec_sh2add_uw, exec_sh3add,
  exec_sh3add_uw, exec_slli_uw, exec_bclr, exec_bclri, exec_bext, exec_bexti, exec_binv, exec_binvi,
  exec_bset, exec_bseti,
}
use riscv_em.Isa.Bitmanip.Logic.{
  exec_andn, exec_orn, exec_xnor, exec_clz, exec_clzw, exec_ctz, exec_ctzw, exec_cpop, exec_cpopw,
  exec_max, exec_maxu, exec_min, exec_minu, exec_sext_b, exec_sext_h, exec_zext_h, exec_rol,
  exec_rolw, exec_ror, exec_rori, exec_roriw, exec_rorw, exec_orc_b, exec_rev8,
}
use riscv_em.Isa.Bitmanip.Carryless.{exec_clmul, exec_clmulh, exec_clmulr}
use riscv_em.Isa.CacheBlocks.{exec_cbo_zero}

-- A function that leaves the bus alone, and one that C++ may leave undefined.
abbrev plain : {D : Type 0} → ExecReturn × Hart → Mmio D → Step D
plain (out, h) m = Outcome.done (out, h, m)

partial : {D : Type 0} → Outcome (ExecReturn × Hart) → Mmio D → Step D
partial (Outcome.done (out, h)) m = Outcome.done (out, h, m)
partial Outcome.throws m = Outcome.throws
partial Outcome.undefined m = Outcome.undefined

-- `junk` is what the variable of a store-conditional holds before.
pub call : {D : Type 0} → ℕ → Op → InstructionData → Hart → Mmio D → Step D
call junk Op.op_add d h m = plain (exec_add d h) m
call junk Op.op_addw d h m = plain (exec_addw d h) m
call junk Op.op_sub d h m = plain (exec_sub d h) m
call junk Op.op_subw d h m = plain (exec_subw d h) m
call junk Op.op_xor d h m = plain (exec_xor d h) m
call junk Op.op_or d h m = plain (exec_or d h) m
call junk Op.op_and d h m = plain (exec_and d h) m
call junk Op.op_sll d h m = plain (exec_sll d h) m
call junk Op.op_sllw d h m = plain (exec_sllw d h) m
call junk Op.op_srl d h m = plain (exec_srl d h) m
call junk Op.op_srlw d h m = plain (exec_srlw d h) m
call junk Op.op_sra d h m = plain (exec_sra d h) m
call junk Op.op_sraw d h m = plain (exec_sraw d h) m
call junk Op.op_slt d h m = plain (exec_slt d h) m
call junk Op.op_sltu d h m = plain (exec_sltu d h) m
call junk Op.op_addi d h m = plain (exec_addi d h) m
call junk Op.op_addiw d h m = plain (exec_addiw d h) m
call junk Op.op_xori d h m = plain (exec_xori d h) m
call junk Op.op_ori d h m = plain (exec_ori d h) m
call junk Op.op_andi d h m = plain (exec_andi d h) m
call junk Op.op_slli d h m = plain (exec_slli d h) m
call junk Op.op_slliw d h m = plain (exec_slliw d h) m
call junk Op.op_srliw d h m = plain (exec_srliw d h) m
call junk Op.op_sraiw d h m = plain (exec_sraiw d h) m
call junk Op.op_srli d h m = plain (exec_srli d h) m
call junk Op.op_srai d h m = plain (exec_srai d h) m
call junk Op.op_slti d h m = plain (exec_slti d h) m
call junk Op.op_sltiu d h m = plain (exec_sltiu d h) m
call junk Op.op_lb d h m = exec_lb d h m
call junk Op.op_lh d h m = exec_lh d h m
call junk Op.op_lw d h m = exec_lw d h m
call junk Op.op_ld d h m = exec_ld d h m
call junk Op.op_lbu d h m = exec_lbu d h m
call junk Op.op_lhu d h m = exec_lhu d h m
call junk Op.op_lwu d h m = exec_lwu d h m
call junk Op.op_sb d h m = exec_sb d h m
call junk Op.op_sh d h m = exec_sh d h m
call junk Op.op_sw d h m = exec_sw d h m
call junk Op.op_sd d h m = exec_sd d h m
call junk Op.op_beq d h m = plain (exec_beq d h) m
call junk Op.op_bne d h m = plain (exec_bne d h) m
call junk Op.op_blt d h m = plain (exec_blt d h) m
call junk Op.op_bge d h m = plain (exec_bge d h) m
call junk Op.op_bltu d h m = plain (exec_bltu d h) m
call junk Op.op_bgeu d h m = plain (exec_bgeu d h) m
call junk Op.op_jal d h m = plain (exec_jal d h) m
call junk Op.op_jalr d h m = plain (exec_jalr d h) m
call junk Op.op_lui d h m = plain (exec_lui d h) m
call junk Op.op_auipc d h m = plain (exec_auipc d h) m
call junk Op.op_ecall d h m = plain (exec_ecall d h) m
call junk Op.op_ebreak d h m = plain (exec_ebreak d h) m
call junk Op.op_fence d h m = plain (exec_fence d h) m
call junk Op.op_mul d h m = plain (exec_mul d h) m
call junk Op.op_mulw d h m = partial (exec_mulw d h) m
call junk Op.op_mulh d h m = plain (exec_mulh d h) m
call junk Op.op_mulhsu d h m = plain (exec_mulhsu d h) m
call junk Op.op_mulhu d h m = plain (exec_mulhu d h) m
call junk Op.op_div d h m = plain (exec_div d h) m
call junk Op.op_divu d h m = plain (exec_divu d h) m
call junk Op.op_divuw d h m = plain (exec_divuw d h) m
call junk Op.op_divw d h m = plain (exec_divw d h) m
call junk Op.op_rem d h m = plain (exec_rem d h) m
call junk Op.op_remu d h m = plain (exec_remu d h) m
call junk Op.op_remuw d h m = plain (exec_remuw d h) m
call junk Op.op_remw d h m = plain (exec_remw d h) m
call junk Op.op_amoswap_w d h m = exec_amoswap_w d h m
call junk Op.op_amoadd_w d h m = exec_amoadd_w d h m
call junk Op.op_amoand_w d h m = exec_amoand_w d h m
call junk Op.op_amoxor_w d h m = exec_amoxor_w d h m
call junk Op.op_amoor_w d h m = exec_amoor_w d h m
call junk Op.op_amomin_w d h m = exec_amomin_w d h m
call junk Op.op_amominu_w d h m = exec_amominu_w d h m
call junk Op.op_amomax_w d h m = exec_amomax_w d h m
call junk Op.op_amomaxu_w d h m = exec_amomaxu_w d h m
call junk Op.op_lr_w d h m = exec_lr_w d h m
call junk Op.op_sc_w d h m = exec_sc_w junk d h m
call junk Op.op_amoswap_d d h m = exec_amoswap_d d h m
call junk Op.op_amoadd_d d h m = exec_amoadd_d d h m
call junk Op.op_amoand_d d h m = exec_amoand_d d h m
call junk Op.op_amoxor_d d h m = exec_amoxor_d d h m
call junk Op.op_amoor_d d h m = exec_amoor_d d h m
call junk Op.op_amomin_d d h m = exec_amomin_d d h m
call junk Op.op_amominu_d d h m = exec_amominu_d d h m
call junk Op.op_amomax_d d h m = exec_amomax_d d h m
call junk Op.op_amomaxu_d d h m = exec_amomaxu_d d h m
call junk Op.op_lr_d d h m = exec_lr_d d h m
call junk Op.op_sc_d d h m = exec_sc_d junk d h m
call junk Op.op_c_addi4spn d h m = plain (exec_c_addi4spn d h) m
call junk Op.op_c_lw d h m = exec_c_lw d h m
call junk Op.op_c_ld d h m = exec_c_ld d h m
call junk Op.op_c_sw d h m = exec_c_sw d h m
call junk Op.op_c_sd d h m = exec_c_sd d h m
call junk Op.op_c_nop d h m = plain (exec_c_nop d h) m
call junk Op.op_c_addi d h m = plain (exec_c_addi d h) m
call junk Op.op_c_addiw d h m = plain (exec_c_addiw d h) m
call junk Op.op_c_li d h m = plain (exec_c_li d h) m
call junk Op.op_c_lui_addi16sp d h m = plain (exec_c_lui_addi16sp d h) m
call junk Op.op_c_srli d h m = plain (exec_c_srli d h) m
call junk Op.op_c_srai d h m = plain (exec_c_srai d h) m
call junk Op.op_c_andi d h m = plain (exec_c_andi d h) m
call junk Op.op_c_sub d h m = plain (exec_c_sub d h) m
call junk Op.op_c_xor d h m = plain (exec_c_xor d h) m
call junk Op.op_c_or d h m = plain (exec_c_or d h) m
call junk Op.op_c_and d h m = plain (exec_c_and d h) m
call junk Op.op_c_subw d h m = plain (exec_c_subw d h) m
call junk Op.op_c_addw d h m = plain (exec_c_addw d h) m
call junk Op.op_c_j d h m = plain (exec_c_j d h) m
call junk Op.op_c_beqz d h m = plain (exec_c_beqz d h) m
call junk Op.op_c_bnez d h m = plain (exec_c_bnez d h) m
call junk Op.op_c_slli d h m = plain (exec_c_slli d h) m
call junk Op.op_c_lwsp d h m = exec_c_lwsp d h m
call junk Op.op_c_ldsp d h m = exec_c_ldsp d h m
call junk Op.op_c_jr d h m = plain (exec_c_jr d h) m
call junk Op.op_c_mv d h m = plain (exec_c_mv d h) m
call junk Op.op_c_ebreak d h m = plain (exec_c_ebreak d h) m
call junk Op.op_c_jalr d h m = plain (exec_c_jalr d h) m
call junk Op.op_c_add d h m = plain (exec_c_add d h) m
call junk Op.op_c_swsp d h m = exec_c_swsp d h m
call junk Op.op_c_sdsp d h m = exec_c_sdsp d h m
call junk Op.op_mret d h m = plain (exec_mret h) m
call junk Op.op_sret d h m = plain (exec_sret d.inst h) m
call junk Op.op_wfi d h m = plain (exec_wfi d h) m
call junk Op.op_sfence_vma d h m = plain (exec_sfence_vma d h) m
call junk Op.op_csrrw d h m = plain (exec_csrrw d h) m
call junk Op.op_csrrs d h m = plain (exec_csrrs d h) m
call junk Op.op_csrrc d h m = plain (exec_csrrc d h) m
call junk Op.op_csrrwi d h m = plain (exec_csrrwi d h) m
call junk Op.op_csrrsi d h m = plain (exec_csrrsi d h) m
call junk Op.op_csrrci d h m = plain (exec_csrrci d h) m
call junk Op.op_fence_i d h m = Outcome.done (next, h, m)
call junk Op.op_add_uw d h m = plain (exec_add_uw d h) m
call junk Op.op_sh1add d h m = plain (exec_sh1add d h) m
call junk Op.op_sh1add_uw d h m = plain (exec_sh1add_uw d h) m
call junk Op.op_sh2add d h m = plain (exec_sh2add d h) m
call junk Op.op_sh2add_uw d h m = plain (exec_sh2add_uw d h) m
call junk Op.op_sh3add d h m = plain (exec_sh3add d h) m
call junk Op.op_sh3add_uw d h m = plain (exec_sh3add_uw d h) m
call junk Op.op_slli_uw d h m = partial (exec_slli_uw d h) m
call junk Op.op_andn d h m = plain (exec_andn d h) m
call junk Op.op_orn d h m = plain (exec_orn d h) m
call junk Op.op_xnor d h m = plain (exec_xnor d h) m
call junk Op.op_clz d h m = plain (exec_clz d h) m
call junk Op.op_clzw d h m = plain (exec_clzw d h) m
call junk Op.op_ctz d h m = plain (exec_ctz d h) m
call junk Op.op_ctzw d h m = plain (exec_ctzw d h) m
call junk Op.op_cpop d h m = plain (exec_cpop d h) m
call junk Op.op_cpopw d h m = plain (exec_cpopw d h) m
call junk Op.op_max d h m = plain (exec_max d h) m
call junk Op.op_maxu d h m = plain (exec_maxu d h) m
call junk Op.op_min d h m = plain (exec_min d h) m
call junk Op.op_minu d h m = plain (exec_minu d h) m
call junk Op.op_sext_b d h m = plain (exec_sext_b d h) m
call junk Op.op_sext_h d h m = plain (exec_sext_h d h) m
call junk Op.op_zext_h d h m = plain (exec_zext_h d h) m
call junk Op.op_rol d h m = partial (exec_rol d h) m
call junk Op.op_rolw d h m = partial (exec_rolw d h) m
call junk Op.op_ror d h m = partial (exec_ror d h) m
call junk Op.op_rori d h m = partial (exec_rori d h) m
call junk Op.op_roriw d h m = partial (exec_roriw d h) m
call junk Op.op_rorw d h m = partial (exec_rorw d h) m
call junk Op.op_orc_b d h m = plain (exec_orc_b d h) m
call junk Op.op_rev8 d h m = plain (exec_rev8 d h) m
call junk Op.op_clmul d h m = plain (exec_clmul d h) m
call junk Op.op_clmulh d h m = plain (exec_clmulh d h) m
call junk Op.op_clmulr d h m = plain (exec_clmulr d h) m
call junk Op.op_bclr d h m = plain (exec_bclr d h) m
call junk Op.op_bclri d h m = plain (exec_bclri d h) m
call junk Op.op_bext d h m = plain (exec_bext d h) m
call junk Op.op_bexti d h m = plain (exec_bexti d h) m
call junk Op.op_binv d h m = plain (exec_binv d h) m
call junk Op.op_binvi d h m = plain (exec_binvi d h) m
call junk Op.op_bset d h m = plain (exec_bset d h) m
call junk Op.op_bseti d h m = plain (exec_bseti d h) m
call junk Op.op_cbo_zero d h m = exec_cbo_zero d h m
