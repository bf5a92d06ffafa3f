-- ===== src/Memory/Mmio/Ram.antt =====
-- Accesses to RAM over the bus: none leaves the array, and a read sees the last write.
use riscv_em.Base.{
  ℕ, ◌+◌, ◌-◌, ◌*◌, ◌%◌, ◌^◌, ◌≤◌, ◌<◌, ◌≡◌, refl, true, some, get_elem?, set, get_elem?-set_self,
  length-gt_of_some, arith,
}
use riscv_em.Traps.{MemorySize, size_code}
use riscv_em.Hart.{Hart}
use riscv_em.Memory.{
  Outcome, MemoryRegion, ptr, find_region, region_at, through, load_at, store_at, store_bytes,
  store_region, store, access_bytes, replace_region, load_bytes,
}
use riscv_em.Memory.Bytes.{load_bytes-store_bytes}
use riscv_em.Memory.Mmio.{
  Mmio, success, amo_check_reservation, in_dram, write, write_dram, read, read_dram_fast, cut,
}

-- RAM is one region at its fixed address, as large as the bus believes.
pub record RamAt {D : Type 0} (m : Mmio D) (i : ℕ) (r : MemoryRegion) : Type 0 where
  pub direct : m.mmap.ram_direct ≡ some i
  pub region : get_elem? m.mmap.regions i ≡ some r
  pub base : r.base_addr ≡ 0x80000000
  pub sized : r.size ≡ m.memsize
  pub small : m.memsize < 2 ^ 63

access_bytes-size_code : (s : MemorySize) → access_bytes (size_code s * 8) ≡ some (size_code s)
unfolding access_bytes
access_bytes-size_code MemorySize.byte = refl
access_bytes-size_code MemorySize.short = refl
access_bytes-size_code MemorySize.int = refl
access_bytes-size_code MemorySize.long = refl

size_code-bounds : (s : MemorySize) → (1 ≤ size_code s) × (size_code s ≤ 8)
size_code-bounds MemorySize.byte = omega arith
size_code-bounds MemorySize.short = omega arith
size_code-bounds MemorySize.int = omega arith
size_code-bounds MemorySize.long = omega arith

cut_again : (v : ℕ) (s : MemorySize) → cut (v % 2 ^ (8 * size_code s)) s ≡ v % 2 ^ (8 * size_code s)
cut_again v MemorySize.byte = omega arith
cut_again v MemorySize.short = omega arith
cut_again v MemorySize.int = omega arith
cut_again v MemorySize.long = omega arith

-- The region after a write.
abbrev written : ℕ → MemorySize → ℕ → MemoryRegion → MemoryRegion
written vaddr size val r = record r {
  data_at = store_bytes (size_code size) (vaddr - 0x80000000) val r.data_at;
}

module _ {D : Type 0} (m : Mmio D) (i : ℕ) (r : MemoryRegion) (at : RamAt m i r) where
  abbrev pub after : ℕ → MemorySize → ℕ → Mmio D
  after vaddr size val = record m {
    mmap = record m.mmap { regions = set m.mmap.regions i (written vaddr size val r) };
  }

  module _ (vaddr : ℕ) (size : MemorySize) (no_wrap : vaddr + 8 < 2 ^ 64)
      (hit : in_dram vaddr size m.memsize ≡ true) where
    inside_ram : (0x80000000 ≤ vaddr) × (vaddr - 0x80000000 + size_code size ≤ r.size)
    inside_ram = ground (arith, at, size_code-bounds size)

    store_region-written :
        (val : ℕ)
        → store_region vaddr (size_code size * 8) val r ≡ Outcome.done (written vaddr size val r)
    unfolding store_region ptr store_at
    store_region-written val =
        ground (arith, at, inside_ram, size_code-bounds size, access_bytes-size_code size)

    store-after :
        (val : ℕ)
        → store vaddr (size_code size * 8) val m.mmap ≡ Outcome.done (after vaddr size val).mmap
    unfolding store find_region region_at through replace_region
    store-after val = ground (arith, at, inside_ram, store_region-written val)

    read_dram_fast-after :
        (val : ℕ)
        → read_dram_fast vaddr size (after vaddr size val)
          ≡ Outcome.done (val % 2 ^ (8 * size_code size))
    unfolding read_dram_fast region_at through load_at
    read_dram_fast-after val = ground (
      arith,
      at,
      inside_ram,
      get_elem?-set_self m.mmap.regions i (written vaddr size val r)
          (length-gt_of_some m.mmap.regions i at.region),
      load_bytes-store_bytes (size_code size) (vaddr - 0x80000000) val r.data_at,
    )

    -- What RAM holds at a place, cut to the size.
    abbrev pub held : ℕ
    held = cut (load_bytes (size_code size) (vaddr - 0x80000000) r.data_at) size

    read_dram_fast-held :
        read_dram_fast vaddr size m
        ≡ Outcome.done (load_bytes (size_code size) (vaddr - 0x80000000) r.data_at)
    unfolding read_dram_fast region_at through load_at
    read_dram_fast-held = ground (arith, at, inside_ram)

    pub read-held : (h : Hart) → read vaddr size h m ≡ Outcome.done (success, some held, h, m)
    unfolding read
    read-held h = ground (arith, hit, read_dram_fast-held)

    -- A write to RAM succeeds, and a read of the same place, by any hart, gives back the value's low
    -- bytes.
    pub write-read :
        (val : ℕ) (h g : Hart)
        → (write vaddr size val h m
            ≡ Outcome.done (success, amo_check_reservation vaddr h, after vaddr size val))
          × (read vaddr size g (after vaddr size val)
              ≡ Outcome.done
                  (success, some (val % 2 ^ (8 * size_code size)), g, after vaddr size val))
    unfolding write write_dram read
    write-read val h g =
        ground (arith, hit, store-after val, read_dram_fast-after val, cut_again val size)
