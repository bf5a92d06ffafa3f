-- ===== src/Hart/Csr.antt =====
-- include/defines/csr.hpp: numbers of the control and status registers, the masks, and the bit
-- fields of `status_t`, `ip_t` and `fcsr_t`. A union is its `raw` word.
use riscv_em.Base.{ℕ}
use riscv_em.Base.Fields.{field, set_field}

abbrev pub csr_fflags : ℕ
csr_fflags = 0x001

abbrev pub csr_frm : ℕ
csr_frm = 0x002

abbrev pub csr_fcsr : ℕ
csr_fcsr = 0x003

abbrev pub csr_sstatus : ℕ
csr_sstatus = 0x100

abbrev pub csr_sie : ℕ
csr_sie = 0x104

abbrev pub csr_stvec : ℕ
csr_stvec = 0x105

abbrev pub csr_scounteren : ℕ
csr_scounteren = 0x106

abbrev pub csr_sstateen0 : ℕ
csr_sstateen0 = 0x10c

abbrev pub csr_sstateen3 : ℕ
csr_sstateen3 = 0x10f

abbrev pub csr_sepc : ℕ
csr_sepc = 0x141

abbrev pub csr_scause : ℕ
csr_scause = 0x142

abbrev pub csr_stval : ℕ
csr_stval = 0x143

abbrev pub csr_sip : ℕ
csr_sip = 0x144

abbrev pub csr_stimecmp : ℕ
csr_stimecmp = 0x14d

abbrev pub csr_satp : ℕ
csr_satp = 0x180

abbrev pub csr_mstatus : ℕ
csr_mstatus = 0x300

abbrev pub csr_misa : ℕ
csr_misa = 0x301

abbrev pub csr_medeleg : ℕ
csr_medeleg = 0x302

abbrev pub csr_mideleg : ℕ
csr_mideleg = 0x303

abbrev pub csr_mie : ℕ
csr_mie = 0x304

abbrev pub csr_mtvec : ℕ
csr_mtvec = 0x305

abbrev pub csr_mcounteren : ℕ
csr_mcounteren = 0x306

abbrev pub csr_mstateen0 : ℕ
csr_mstateen0 = 0x30c

abbrev pub csr_mstateen3 : ℕ
csr_mstateen3 = 0x30f

abbrev pub csr_mcyclecfg : ℕ
csr_mcyclecfg = 0x321

abbrev pub csr_mepc : ℕ
csr_mepc = 0x341

abbrev pub csr_mcause : ℕ
csr_mcause = 0x342

abbrev pub csr_mtval : ℕ
csr_mtval = 0x343

abbrev pub csr_mip : ℕ
csr_mip = 0x344

abbrev pub csr_tselect : ℕ
csr_tselect = 0x7a0

abbrev pub csr_tdata1 : ℕ
csr_tdata1 = 0x7a1

abbrev pub csr_tdata3 : ℕ
csr_tdata3 = 0x7a3

abbrev pub csr_mcycle : ℕ
csr_mcycle = 0xb00

abbrev pub csr_minstret : ℕ
csr_minstret = 0xb02

abbrev pub csr_cycle : ℕ
csr_cycle = 0xc00

abbrev pub csr_time : ℕ
csr_time = 0xc01

abbrev pub csr_instret : ℕ
csr_instret = 0xc02

abbrev pub csr_hpmcounter3 : ℕ
csr_hpmcounter3 = 0xc03

abbrev pub csr_hpmcounter31 : ℕ
csr_hpmcounter31 = 0xc1f

abbrev pub csr_scountovf : ℕ
csr_scountovf = 0xda0

abbrev pub csr_mvendorid : ℕ
csr_mvendorid = 0xf11

abbrev pub csr_marchid : ℕ
csr_marchid = 0xf12

abbrev pub csr_mimpid : ℕ
csr_mimpid = 0xf13

abbrev pub csr_mhartid : ℕ
csr_mhartid = 0xf14

abbrev pub csr_mtopi : ℕ
csr_mtopi = 0xfb0

abbrev pub sstatus_mask : ℕ
sstatus_mask = 0x80000003000de762

abbrev pub se_mask : ℕ
se_mask = 0x222

abbrev pub mstatus_ro_mask : ℕ
mstatus_ro_mask = 0xf00000000

-- Fields of `status_t`.
abbrev pub status_sie : ℕ → ℕ
status_sie = field 1 1

abbrev pub set_status_sie : ℕ → ℕ → ℕ
set_status_sie = set_field 1 1

abbrev pub status_mie : ℕ → ℕ
status_mie = field 1 3

abbrev pub set_status_mie : ℕ → ℕ → ℕ
set_status_mie = set_field 1 3

abbrev pub status_spie : ℕ → ℕ
status_spie = field 1 5

abbrev pub set_status_spie : ℕ → ℕ → ℕ
set_status_spie = set_field 1 5

abbrev pub status_mpie : ℕ → ℕ
status_mpie = field 1 7

abbrev pub set_status_mpie : ℕ → ℕ → ℕ
set_status_mpie = set_field 1 7

abbrev pub status_spp : ℕ → ℕ
status_spp = field 1 8

abbrev pub set_status_spp : ℕ → ℕ → ℕ
set_status_spp = set_field 1 8

abbrev pub status_mpp : ℕ → ℕ
status_mpp = field 2 11

abbrev pub set_status_mpp : ℕ → ℕ → ℕ
set_status_mpp = set_field 2 11

abbrev pub status_fs : ℕ → ℕ
status_fs = field 2 13

abbrev pub set_status_fs : ℕ → ℕ → ℕ
set_status_fs = set_field 2 13

abbrev pub status_mprv : ℕ → ℕ
status_mprv = field 1 17

abbrev pub set_status_mprv : ℕ → ℕ → ℕ
set_status_mprv = set_field 1 17

abbrev pub status_tvm : ℕ → ℕ
status_tvm = field 1 20

abbrev pub set_status_tvm : ℕ → ℕ → ℕ
set_status_tvm = set_field 1 20

abbrev pub status_tw : ℕ → ℕ
status_tw = field 1 21

abbrev pub set_status_tw : ℕ → ℕ → ℕ
set_status_tw = set_field 1 21

abbrev pub status_tsr : ℕ → ℕ
status_tsr = field 1 22

abbrev pub set_status_tsr : ℕ → ℕ → ℕ
set_status_tsr = set_field 1 22

abbrev pub status_uxl : ℕ → ℕ
status_uxl = field 2 32

abbrev pub set_status_uxl : ℕ → ℕ → ℕ
set_status_uxl = set_field 2 32

abbrev pub status_sxl : ℕ → ℕ
status_sxl = field 2 34

abbrev pub set_status_sxl : ℕ → ℕ → ℕ
set_status_sxl = set_field 2 34

-- Fields of `ip_t`.
abbrev pub ip_msip : ℕ → ℕ
ip_msip = field 1 3

abbrev pub set_ip_msip : ℕ → ℕ → ℕ
set_ip_msip = set_field 1 3

abbrev pub ip_stip : ℕ → ℕ
ip_stip = field 1 5

abbrev pub set_ip_stip : ℕ → ℕ → ℕ
set_ip_stip = set_field 1 5

abbrev pub ip_mtip : ℕ → ℕ
ip_mtip = field 1 7

abbrev pub set_ip_mtip : ℕ → ℕ → ℕ
set_ip_mtip = set_field 1 7

abbrev pub ip_seip : ℕ → ℕ
ip_seip = field 1 9

abbrev pub set_ip_seip : ℕ → ℕ → ℕ
set_ip_seip = set_field 1 9

abbrev pub ip_meip : ℕ → ℕ
ip_meip = field 1 11

abbrev pub set_ip_meip : ℕ → ℕ → ℕ
set_ip_meip = set_field 1 11

-- Fields of `fcsr_t`.
abbrev pub fcsr_fflags : ℕ → ℕ
fcsr_fflags = field 5 0

abbrev pub set_fcsr_fflags : ℕ → ℕ → ℕ
set_fcsr_fflags = set_field 5 0

abbrev pub fcsr_frm : ℕ → ℕ
fcsr_frm = field 3 5

abbrev pub set_fcsr_frm : ℕ → ℕ → ℕ
set_fcsr_frm = set_field 3 5
