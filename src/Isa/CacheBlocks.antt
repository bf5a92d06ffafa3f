-- ===== src/Isa/CacheBlocks.antt =====
-- src/sets/zicboz.cpp: a block of 64 bytes is cleared.
use riscv_em.Base.{ℕ, zero, suc, ◌-◌, ◌*◌, ◌/◌, add64, leb, if◌then◌else◌}
use riscv_em.Traps.{MemorySize}
use riscv_em.Hart.{Hart}
use riscv_em.Memory.{Outcome, region_at, through, store_at, replace_region}
use riscv_em.Memory.Mmio.{Mmio, write}
use riscv_em.Isa.{InstructionData, next}
use riscv_em.Isa.Transfers.{Step}

module _ {D : Type 0} where
  -- `memset` on the array of RAM, with no check of its size.
  pub clear_ram : ℕ → Hart → Mmio D → Step D
  clear_ram addr h m =
      elim (replace_region m.mmap.ram_direct m.mmap
        (through (region_at m.mmap.ram_direct m.mmap) (store_at 64 (addr - 0x80000000) 0))) [
          | Outcome.done mmap ↦ Outcome.done (next, h, record m { mmap = mmap })
          | Outcome.throws ↦ Outcome.throws
          | Outcome.undefined ↦ Outcome.undefined
        ]

  -- The loop over the bytes of a device, with `n` of them left; the results are not looked at.
  pub clear_bytes : ℕ → ℕ → Hart → Mmio D → Step D
  clear_bytes zero addr h m = Outcome.done (next, h, m)
  clear_bytes (suc n) addr h m = elim (write addr MemorySize.byte 0 h m) [
    | Outcome.done (out, h', m') ↦ clear_bytes n (add64 addr 1) h' m'
    | Outcome.throws ↦ Outcome.throws
    | Outcome.undefined ↦ Outcome.undefined
  ]

  pub exec_cbo_zero : InstructionData → Hart → Mmio D → Step D
  exec_cbo_zero d h m =
      let addr = h.gpr d.rs1 / 64 * 64 in
      if leb 0x80000000 addr then clear_ram addr h m else clear_bytes 64 addr h m
