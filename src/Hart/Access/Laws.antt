-- ===== src/Hart/Access/Laws.antt =====
-- The views of one status register: what a write through each of them may change.
use riscv_em.Base.{ℕ, ◌<◌, ◌≡◌, refl, bit_and, bit_or, not64, ◌==◌, if◌then◌else◌, min, arith}
use riscv_em.Base.Bits.{bit, bit-lt, bit-bit_and, bit-bit_or, bit-complement}
use riscv_em.Hart.{Hart}
use riscv_em.Hart.Csr.{csr_sstatus, csr_mstatus, sstatus_mask, mstatus_ro_mask}
use riscv_em.Hart.Access.{merge, csr_write, csr_read}
use riscv_em.Hart.Access.Masks.{bit-merge}

write_sstatus :
    (val : ℕ) (h : Hart) → (csr_write csr_sstatus val h).status ≡ merge sstatus_mask h.status val
unfolding csr_write
write_sstatus val h = refl

write_mstatus :
    (val : ℕ) (h : Hart)
    → (csr_write csr_mstatus val h).status
      ≡ bit_or (bit_and h.status mstatus_ro_mask) (bit_and val (not64 mstatus_ro_mask))
unfolding csr_write
write_mstatus val h = refl

-- A write of SSTATUS changes exactly the bits of the mask, to the value's.
csr_write-sstatus :
    (k val : ℕ) (h : Hart)
    → k < 64
    → bit k (csr_write csr_sstatus val h).status
      ≡ (if bit k sstatus_mask == 1 then bit k val else bit k h.status)
csr_write-sstatus k val h hk =
    rw (write_sstatus val h) (bit-merge k sstatus_mask h.status val hk (omega arith))

-- A write of MSTATUS changes every bit but the two widths' four.
csr_write-mstatus :
    (k val : ℕ) (h : Hart)
    → k < 64
    → bit k (csr_write csr_mstatus val h).status
      ≡ (if bit k mstatus_ro_mask == 1 then bit k h.status else bit k val)
csr_write-mstatus k val h hk = ground (
  arith,
  write_mstatus val h,
  bit-bit_or k (bit_and h.status mstatus_ro_mask) (bit_and val (not64 mstatus_ro_mask)),
  bit-bit_and k h.status mstatus_ro_mask,
  bit-bit_and k val (not64 mstatus_ro_mask),
  bit-complement 64 k mstatus_ro_mask (omega arith) hk,
  bit-lt k mstatus_ro_mask,
  bit-lt k h.status,
  bit-lt k val,
)

read_sstatus : (h : Hart) → (csr_read csr_sstatus h).0 ≡ bit_and h.status sstatus_mask
unfolding csr_read
read_sstatus h = refl

-- What SSTATUS shows after a write of SSTATUS or of MSTATUS: the value's bits under the mask, less
-- the widths' for MSTATUS, which keep theirs.
csr_read-csr_write_sstatus :
    (k val : ℕ) (h : Hart)
    → k < 64
    → bit k (csr_read csr_sstatus (csr_write csr_sstatus val h)).0
      ≡ min (bit k val) (bit k sstatus_mask)
csr_read-csr_write_sstatus k val h hk = ground (
  arith,
  read_sstatus (csr_write csr_sstatus val h),
  bit-bit_and k (csr_write csr_sstatus val h).status sstatus_mask,
  csr_write-sstatus k val h hk,
  bit-lt k sstatus_mask,
  bit-lt k val,
)
