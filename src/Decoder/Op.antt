-- ===== src/Decoder/Op.antt =====
-- The functions of src/sets that are registered, by name.
pub data Op : Type 0 where
  op_add op_addw op_sub op_subw op_xor op_or op_and op_sll op_sllw op_srl op_srlw op_sra op_sraw
        op_slt op_sltu op_addi op_addiw op_xori op_ori op_andi op_slli op_slliw op_srliw op_sraiw
        op_srli op_srai op_slti op_sltiu op_lb op_lh op_lw op_ld op_lbu op_lhu op_lwu op_sb op_sh
        op_sw op_sd op_beq op_bne op_blt op_bge op_bltu op_bgeu op_jal op_jalr op_lui op_auipc
        op_ecall op_ebreak op_fence op_mul op_mulw op_mulh op_mulhsu op_mulhu op_div op_divu
        op_divuw op_divw op_rem op_remu op_remuw op_remw op_amoswap_w op_amoadd_w op_amoand_w
        op_amoxor_w op_amoor_w op_amomin_w op_amominu_w op_amomax_w op_amomaxu_w op_lr_w op_sc_w
        op_amoswap_d op_amoadd_d op_amoand_d op_amoxor_d op_amoor_d op_amomin_d op_amominu_d
        op_amomax_d op_amomaxu_d op_lr_d op_sc_d op_c_addi4spn op_c_lw op_c_ld op_c_sw op_c_sd
        op_c_nop op_c_addi op_c_addiw op_c_li op_c_lui_addi16sp op_c_srli op_c_srai op_c_andi
        op_c_sub op_c_xor op_c_or op_c_and op_c_subw op_c_addw op_c_j op_c_beqz op_c_bnez op_c_slli
        op_c_lwsp op_c_ldsp op_c_jr op_c_mv op_c_ebreak op_c_jalr op_c_add op_c_swsp op_c_sdsp
        op_mret op_sret op_wfi op_sfence_vma op_csrrw op_csrrs op_csrrc op_csrrwi op_csrrsi
        op_csrrci op_fence_i op_add_uw op_sh1add op_sh1add_uw op_sh2add op_sh2add_uw op_sh3add
        op_sh3add_uw op_slli_uw op_andn op_orn op_xnor op_clz op_clzw op_ctz op_ctzw op_cpop
        op_cpopw op_max op_maxu op_min op_minu op_sext_b op_sext_h op_zext_h op_rol op_rolw op_ror
        op_rori op_roriw op_rorw op_orc_b op_rev8 op_clmul op_clmulh op_clmulr op_bclr op_bclri
        op_bext op_bexti op_binv op_binvi op_bset op_bseti op_cbo_zero :
      Op
