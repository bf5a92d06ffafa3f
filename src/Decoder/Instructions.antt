-- ===== src/Decoder/Instructions.antt =====
-- What each file of src/sets registers, and `init_all_instrs` of src/decode.cpp, built without
-- USE_FPU.
pub mod Unique
pub mod Exact
mod Tests
use riscv_em.Base.{ℕ, List, [], ◌∷◌, Option, none, some}
use Prim.Native.String.{String}
use riscv_em.Isa.Immediates.{imm_b, imm_i, imm_j, imm_s, imm_u, imm_zicsr, shamt, shamt64}
use riscv_em.Isa.Compressed.Immediates.{
  d_c_b_imm, d_c_j_imm, d_c_nzimm, d_c_uimm, d_c_uimm_arith, d_c_uimm_cl, d_c_uimm_cl1,
  d_c_uimm_ldsp, d_c_uimm_lwsp, d_c_uimm_sdsp, d_c_uimm_swsp,
}
use riscv_em.Decoder.{Registry, register_instr}
use riscv_em.Decoder.Op.{Op}
use riscv_em.Decoder.Table.{Lut, build_lut}

-- A call of `register_instr`: the pattern, the function and the function of the immediate.
pub record Row : Type 0 where
  pub mask : String
  pub func : Op
  pub imm : Option (ℕ → ℕ)

abbrev row : String → Op → Row
row mask func = record { mask = mask; func = func; imm = none }

abbrev row_imm : String → Op → (ℕ → ℕ) → Row
row_imm mask func imm = record { mask = mask; func = func; imm = some imm }

-- The calls, one after the other.
pub register_rows : List Row → Registry Op → Option (Registry Op)
register_rows [] r = some r
register_rows (x ∷ rows) r = elim (register_instr x.mask x.func x.imm r) [
  | none ↦ none
  | some r' ↦ register_rows rows r'
]

abbrev pub rv64i_rows : List Row
rv64i_rows =
    row "0000000**********000*****0110011" Op.op_add
    ∷ row "0000000**********000*****0111011" Op.op_addw
    ∷ row "0100000**********000*****0110011" Op.op_sub
    ∷ row "0100000**********000*****0111011" Op.op_subw
    ∷ row "0000000**********100*****0110011" Op.op_xor
    ∷ row "0000000**********110*****0110011" Op.op_or
    ∷ row "0000000**********111*****0110011" Op.op_and
    ∷ row "0000000**********001*****0110011" Op.op_sll
    ∷ row "0000000**********001*****0111011" Op.op_sllw
    ∷ row "0000000**********101*****0110011" Op.op_srl
    ∷ row "0000000**********101*****0111011" Op.op_srlw
    ∷ row "0100000**********101*****0110011" Op.op_sra
    ∷ row "0100000**********101*****0111011" Op.op_sraw
    ∷ row "0000000**********010*****0110011" Op.op_slt
    ∷ row "0000000**********011*****0110011" Op.op_sltu
    ∷ row_imm "*****************000*****0010011" Op.op_addi imm_i
    ∷ row_imm "*****************000*****0011011" Op.op_addiw imm_i
    ∷ row_imm "*****************100*****0010011" Op.op_xori imm_i
    ∷ row_imm "*****************110*****0010011" Op.op_ori imm_i
    ∷ row_imm "*****************111*****0010011" Op.op_andi imm_i
    ∷ row_imm "000000***********001*****0010011" Op.op_slli shamt64
    ∷ row_imm "0000000**********001*****0011011" Op.op_slliw shamt
    ∷ row_imm "0000000**********101*****0011011" Op.op_srliw shamt
    ∷ row_imm "0100000**********101*****0011011" Op.op_sraiw shamt
    ∷ row_imm "000000***********101*****0010011" Op.op_srli shamt64
    ∷ row_imm "010000***********101*****0010011" Op.op_srai shamt64
    ∷ row_imm "*****************010*****0010011" Op.op_slti imm_i
    ∷ row_imm "*****************011*****0010011" Op.op_sltiu imm_i
    ∷ row_imm "*****************000*****0000011" Op.op_lb imm_i
    ∷ row_imm "*****************001*****0000011" Op.op_lh imm_i
    ∷ row_imm "*****************010*****0000011" Op.op_lw imm_i
    ∷ row_imm "*****************011*****0000011" Op.op_ld imm_i
    ∷ row_imm "*****************100*****0000011" Op.op_lbu imm_i
    ∷ row_imm "*****************101*****0000011" Op.op_lhu imm_i
    ∷ row_imm "*****************110*****0000011" Op.op_lwu imm_i
    ∷ row_imm "*****************000*****0100011" Op.op_sb imm_s
    ∷ row_imm "*****************001*****0100011" Op.op_sh imm_s
    ∷ row_imm "*****************010*****0100011" Op.op_sw imm_s
    ∷ row_imm "*****************011*****0100011" Op.op_sd imm_s
    ∷ row_imm "*****************000*****1100011" Op.op_beq imm_b
    ∷ row_imm "*****************001*****1100011" Op.op_bne imm_b
    ∷ row_imm "*****************100*****1100011" Op.op_blt imm_b
    ∷ row_imm "*****************101*****1100011" Op.op_bge imm_b
    ∷ row_imm "*****************110*****1100011" Op.op_bltu imm_b
    ∷ row_imm "*****************111*****1100011" Op.op_bgeu imm_b
    ∷ row_imm "*************************1101111" Op.op_jal imm_j
    ∷ row_imm "*****************000*****1100111" Op.op_jalr imm_i
    ∷ row_imm "*************************0110111" Op.op_lui imm_u
    ∷ row_imm "*************************0010111" Op.op_auipc imm_u
    ∷ row "00000000000000000000000001110011" Op.op_ecall
    ∷ row "00000000000100000000000001110011" Op.op_ebreak
    ∷ row_imm "0000********00000000000000001111" Op.op_fence imm_i
    ∷ []

abbrev pub rv64m_rows : List Row
rv64m_rows =
    row "0000001**********000*****0110011" Op.op_mul
    ∷ row "0000001**********000*****0111011" Op.op_mulw
    ∷ row "0000001**********001*****0110011" Op.op_mulh
    ∷ row "0000001**********010*****0110011" Op.op_mulhsu
    ∷ row "0000001**********011*****0110011" Op.op_mulhu
    ∷ row "0000001**********100*****0110011" Op.op_div
    ∷ row "0000001**********101*****0110011" Op.op_divu
    ∷ row "0000001**********101*****0111011" Op.op_divuw
    ∷ row "0000001**********100*****0111011" Op.op_divw
    ∷ row "0000001**********110*****0110011" Op.op_rem
    ∷ row "0000001**********111*****0110011" Op.op_remu
    ∷ row "0000001**********111*****0111011" Op.op_remuw
    ∷ row "0000001**********110*****0111011" Op.op_remw
    ∷ []

abbrev pub rv64a_rows : List Row
rv64a_rows =
    row "00001************010*****0101111" Op.op_amoswap_w
    ∷ row "00000************010*****0101111" Op.op_amoadd_w
    ∷ row "01100************010*****0101111" Op.op_amoand_w
    ∷ row "00100************010*****0101111" Op.op_amoxor_w
    ∷ row "01000************010*****0101111" Op.op_amoor_w
    ∷ row "10000************010*****0101111" Op.op_amomin_w
    ∷ row "11000************010*****0101111" Op.op_amominu_w
    ∷ row "10100************010*****0101111" Op.op_amomax_w
    ∷ row "11100************010*****0101111" Op.op_amomaxu_w
    ∷ row "00010************010*****0101111" Op.op_lr_w
    ∷ row "00011************010*****0101111" Op.op_sc_w
    ∷ row "00001************011*****0101111" Op.op_amoswap_d
    ∷ row "00000************011*****0101111" Op.op_amoadd_d
    ∷ row "01100************011*****0101111" Op.op_amoand_d
    ∷ row "00100************011*****0101111" Op.op_amoxor_d
    ∷ row "01000************011*****0101111" Op.op_amoor_d
    ∷ row "10000************011*****0101111" Op.op_amomin_d
    ∷ row "11000************011*****0101111" Op.op_amominu_d
    ∷ row "10100************011*****0101111" Op.op_amomax_d
    ∷ row "11100************011*****0101111" Op.op_amomaxu_d
    ∷ row "00010************011*****0101111" Op.op_lr_d
    ∷ row "00011************011*****0101111" Op.op_sc_d
    ∷ []

abbrev pub rv64c_rows : List Row
rv64c_rows =
    row_imm "000***********00" Op.op_c_addi4spn d_c_uimm
    ∷ row_imm "010***********00" Op.op_c_lw d_c_uimm_cl
    ∷ row_imm "011***********00" Op.op_c_ld d_c_uimm_cl1
    ∷ row_imm "110***********00" Op.op_c_sw d_c_uimm_cl
    ∷ row_imm "111***********00" Op.op_c_sd d_c_uimm_cl1
    ∷ row "0000000000000001" Op.op_c_nop
    ∷ row_imm "000***********01" Op.op_c_addi d_c_nzimm
    ∷ row_imm "001***********01" Op.op_c_addiw d_c_nzimm
    ∷ row_imm "010***********01" Op.op_c_li d_c_nzimm
    ∷ row_imm "011***********01" Op.op_c_lui_addi16sp d_c_nzimm
    ∷ row_imm "100*00********01" Op.op_c_srli d_c_uimm_arith
    ∷ row_imm "100*01********01" Op.op_c_srai d_c_uimm_arith
    ∷ row_imm "100*10********01" Op.op_c_andi d_c_uimm_arith
    ∷ row "100011***00***01" Op.op_c_sub
    ∷ row "100011***01***01" Op.op_c_xor
    ∷ row "100011***10***01" Op.op_c_or
    ∷ row "100011***11***01" Op.op_c_and
    ∷ row "100111***00***01" Op.op_c_subw
    ∷ row "100111***01***01" Op.op_c_addw
    ∷ row_imm "101***********01" Op.op_c_j d_c_j_imm
    ∷ row_imm "110***********01" Op.op_c_beqz d_c_b_imm
    ∷ row_imm "111***********01" Op.op_c_bnez d_c_b_imm
    ∷ row_imm "000***********10" Op.op_c_slli d_c_uimm_arith
    ∷ row_imm "010***********10" Op.op_c_lwsp d_c_uimm_lwsp
    ∷ row_imm "011***********10" Op.op_c_ldsp d_c_uimm_ldsp
    ∷ row "1000*****0000010" Op.op_c_jr
    ∷ row "1000**********10" Op.op_c_mv
    ∷ row "1001000000000010" Op.op_c_ebreak
    ∷ row "1001*****0000010" Op.op_c_jalr
    ∷ row "1001**********10" Op.op_c_add
    ∷ row_imm "110***********10" Op.op_c_swsp d_c_uimm_swsp
    ∷ row_imm "111***********10" Op.op_c_sdsp d_c_uimm_sdsp
    ∷ []

abbrev pub priv_rows : List Row
priv_rows =
    row "00110000001000000000000001110011" Op.op_mret
    ∷ row "00010000001000000000000001110011" Op.op_sret
    ∷ row "00010000010100000000000001110011" Op.op_wfi
    ∷ row "0001001**********000000001110011" Op.op_sfence_vma
    ∷ []

abbrev pub zicsr_rows : List Row
zicsr_rows =
    row_imm "*****************001*****1110011" Op.op_csrrw imm_zicsr
    ∷ row_imm "*****************010*****1110011" Op.op_csrrs imm_zicsr
    ∷ row_imm "*****************011*****1110011" Op.op_csrrc imm_zicsr
    ∷ row_imm "*****************101*****1110011" Op.op_csrrwi imm_zicsr
    ∷ row_imm "*****************110*****1110011" Op.op_csrrsi imm_zicsr
    ∷ row_imm "*****************111*****1110011" Op.op_csrrci imm_zicsr
    ∷ []

abbrev pub zifencei_rows : List Row
zifencei_rows = row "*****************001*****0001111" Op.op_fence_i ∷ []

abbrev pub zba_rows : List Row
zba_rows =
    row "0000100**********000*****0111011" Op.op_add_uw
    ∷ row "0010000**********010*****0110011" Op.op_sh1add
    ∷ row "0010000**********010*****0111011" Op.op_sh1add_uw
    ∷ row "0010000**********100*****0110011" Op.op_sh2add
    ∷ row "0010000**********100*****0111011" Op.op_sh2add_uw
    ∷ row "0010000**********110*****0110011" Op.op_sh3add
    ∷ row "0010000**********110*****0111011" Op.op_sh3add_uw
    ∷ row "000010***********001*****0011011" Op.op_slli_uw
    ∷ []

abbrev pub zbb_rows : List Row
zbb_rows =
    row "0100000**********111*****0110011" Op.op_andn
    ∷ row "0100000**********110*****0110011" Op.op_orn
    ∷ row "0100000**********100*****0110011" Op.op_xnor
    ∷ row "011000000000*****001*****0010011" Op.op_clz
    ∷ row "011000000000*****001*****0011011" Op.op_clzw
    ∷ row "011000000001*****001*****0010011" Op.op_ctz
    ∷ row "011000000001*****001*****0011011" Op.op_ctzw
    ∷ row "011000000010*****001*****0010011" Op.op_cpop
    ∷ row "011000000010*****001*****0011011" Op.op_cpopw
    ∷ row "0000101**********110*****0110011" Op.op_max
    ∷ row "0000101**********111*****0110011" Op.op_maxu
    ∷ row "0000101**********100*****0110011" Op.op_min
    ∷ row "0000101**********101*****0110011" Op.op_minu
    ∷ row "011000000100*****001*****0010011" Op.op_sext_b
    ∷ row "011000000101*****001*****0010011" Op.op_sext_h
    ∷ row "000010000000*****100*****0111011" Op.op_zext_h
    ∷ row "0110000**********001*****0110011" Op.op_rol
    ∷ row "0110000**********001*****0111011" Op.op_rolw
    ∷ row "0110000**********101*****0110011" Op.op_ror
    ∷ row "011000***********101*****0010011" Op.op_rori
    ∷ row "0110000**********101*****0011011" Op.op_roriw
    ∷ row "0110000**********101*****0111011" Op.op_rorw
    ∷ row "001010000111*****101*****0010011" Op.op_orc_b
    ∷ row "011010111000*****101*****0010011" Op.op_rev8
    ∷ []

abbrev pub zbc_rows : List Row
zbc_rows =
    row "0000101**********001*****0110011" Op.op_clmul
    ∷ row "0000101**********011*****0110011" Op.op_clmulh
    ∷ row "0000101**********010*****0110011" Op.op_clmulr
    ∷ []

abbrev pub zbs_rows : List Row
zbs_rows =
    row "0100100**********001*****0110011" Op.op_bclr
    ∷ row "010010***********001*****0010011" Op.op_bclri
    ∷ row "0100100**********101*****0110011" Op.op_bext
    ∷ row "010010***********101*****0010011" Op.op_bexti
    ∷ row "0110100**********001*****0110011" Op.op_binv
    ∷ row "011010***********001*****0010011" Op.op_binvi
    ∷ row "0010100**********001*****0110011" Op.op_bset
    ∷ row "001010***********001*****0010011" Op.op_bseti
    ∷ []

abbrev pub zicboz_rows : List Row
zicboz_rows = row "000000000100*****010000000001111" Op.op_cbo_zero ∷ []

pub init_rv64i : Registry Op → Option (Registry Op)
init_rv64i = register_rows rv64i_rows

pub init_rv64m : Registry Op → Option (Registry Op)
init_rv64m = register_rows rv64m_rows

pub init_rv64a : Registry Op → Option (Registry Op)
init_rv64a = register_rows rv64a_rows

pub init_rv64c : Registry Op → Option (Registry Op)
init_rv64c = register_rows rv64c_rows

pub init_priv : Registry Op → Option (Registry Op)
init_priv = register_rows priv_rows

pub init_zicsr : Registry Op → Option (Registry Op)
init_zicsr = register_rows zicsr_rows

pub init_zifencei : Registry Op → Option (Registry Op)
init_zifencei = register_rows zifencei_rows

pub init_zba : Registry Op → Option (Registry Op)
init_zba = register_rows zba_rows

pub init_zbb : Registry Op → Option (Registry Op)
init_zbb = register_rows zbb_rows

pub init_zbc : Registry Op → Option (Registry Op)
init_zbc = register_rows zbc_rows

pub init_zbs : Registry Op → Option (Registry Op)
init_zbs = register_rows zbs_rows

pub init_zicboz : Registry Op → Option (Registry Op)
init_zicboz = register_rows zicboz_rows

-- The calls one after the other, up to a failed assertion.
pub run_inits : List (Registry Op → Option (Registry Op)) → Registry Op → Option (Registry Op)
run_inits [] r = some r
run_inits (init ∷ rest) r = elim (init r) [ none ↦ none | some r' ↦ run_inits rest r' ]

abbrev pub inits : List (Registry Op → Option (Registry Op))
inits =
    init_rv64i ∷ init_rv64m ∷ init_rv64a ∷ init_rv64c ∷ init_priv ∷ init_zicsr ∷ init_zifencei
    ∷ init_zba ∷ init_zbb ∷ init_zbc ∷ init_zbs ∷ init_zicboz ∷ []

abbrev pub nothing_registered : Registry Op
nothing_registered = record { instructions = []; global_hash_mask = 0 }

pub init_all_instrs : (ℕ → ℕ → ℕ) → Option (Lut Op × Lut Op)
init_all_instrs pext = elim (run_inits inits nothing_registered) [
  | none ↦ none
  | some r ↦ build_lut pext r.instructions (λ i. none) (λ i. none)
]
