-- ===== src/Hart/Access.antt =====
-- `Hart::csr_write` and `Hart::csr_read` of src/hart.cpp. `ie` and `ip` are 16-bit words. A read
-- returns the value and the state, since a read of a floating-point register can trap.
pub mod Laws
pub mod Masks
use riscv_em.Base.{
  ℕ, ◌-◌, ◌^◌, ◌+◌, bit_and, bit_or, u16, not64, leb, ◌==◌, if◌then◌else◌, Bool, true, false, ◌&&◌,
  ◌||◌,
}
use riscv_em.Traps.{exc_illegal_instruction}
use riscv_em.Hart.{Hart, update}
use riscv_em.Hart.Trap.{trap}
use riscv_em.Hart.Csr.{
  csr_fflags, csr_frm, csr_fcsr, csr_sstatus, csr_sie, csr_sip, csr_stimecmp, csr_mstatus, csr_mie,
  csr_mip, csr_mcycle, csr_minstret, csr_cycle, csr_instret, csr_hpmcounter3, csr_hpmcounter31,
  csr_mvendorid, csr_marchid, csr_mimpid, sstatus_mask, se_mask, mstatus_ro_mask, status_fs,
  fcsr_fflags, set_fcsr_fflags, fcsr_frm, set_fcsr_frm,
}

-- `(old & ~mask) | (val & mask)`
pub merge : ℕ → ℕ → ℕ → ℕ
merge mask old val = bit_or (bit_and old (not64 mask)) (bit_and val mask)

-- The three floating-point registers want `status.fields.FS` set, and trap without it.
abbrev pub fp_off : Hart → Bool
fp_off h = status_fs h.status == 0

pub write_fp : ℕ → Hart → Hart → Hart
write_fp csr done h = if fp_off h then trap exc_illegal_instruction csr false h else done

pub csr_write : ℕ → ℕ → Hart → Hart
csr_write csr val h =
    if csr == csr_mstatus
    then record h {
      status = bit_or (bit_and h.status mstatus_ro_mask) (bit_and val (not64 mstatus_ro_mask));
    }
    else if csr == csr_sstatus
    then record h { status = merge sstatus_mask h.status val }
    else if csr == csr_sie
    then record h { ie = u16 (merge se_mask h.ie val) }
    else if csr == csr_sip
    then record h { ip = u16 (merge se_mask h.ip val) }
    else if csr == csr_mie
    then record h { ie = u16 val }
    else if csr == csr_mip
    then record h { ip = u16 val }
    else if csr == csr_stimecmp
    then record h { stimecmp = val }
    else if csr == csr_fcsr
    then write_fp csr (record h { fcsr = val }) h
    else if csr == csr_fflags
    then write_fp csr (record h { fcsr = set_fcsr_fflags val h.fcsr }) h
    else if csr == csr_frm
    then write_fp csr (record h { fcsr = set_fcsr_frm val h.fcsr }) h
    else if (csr == csr_mvendorid) || (csr == csr_marchid) || (csr == csr_mimpid)
    then h
    else record h { csrs = update h.csrs csr val }

pub read_fp : ℕ → ℕ → Hart → ℕ × Hart
read_fp csr val h = if fp_off h then (0, trap exc_illegal_instruction csr false h) else (val, h)

pub csr_read : ℕ → Hart → ℕ × Hart
csr_read csr h =
    if csr == csr_mstatus
    then (h.status, h)
    else if csr == csr_sstatus
    then (bit_and h.status sstatus_mask, h)
    else if csr == csr_sie
    then (bit_and h.ie se_mask, h)
    else if csr == csr_sip
    then (bit_and h.ip se_mask, h)
    else if csr == csr_mip
    then (h.ip, h)
    else if csr == csr_mie
    then (h.ie, h)
    else if csr == csr_cycle
    then (h.csrs csr_mcycle, h)
    else if csr == csr_instret
    then (h.csrs csr_minstret, h)
    else if leb csr_hpmcounter3 csr && leb csr csr_hpmcounter31
    then (h.csrs (csr - 0x100), h)
    else if csr == csr_stimecmp
    then (h.stimecmp, h)
    else if csr == csr_fcsr
    then read_fp csr h.fcsr h
    else if csr == csr_fflags
    then read_fp csr (fcsr_fflags h.fcsr) h
    else if csr == csr_frm
    then read_fp csr (fcsr_frm h.fcsr) h
    else (h.csrs csr, h)
