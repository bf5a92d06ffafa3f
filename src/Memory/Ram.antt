-- ===== src/Memory/Ram.antt =====
-- Single bytes of RAM, through the memory map.
use riscv_em.Base.{
  ℕ, ◌+◌, ◌-◌, ◌^◌, ◌≤◌, ◌<◌, ◌≡◌, u8, ◌==◌, if◌then◌else◌, some, set, get_elem?,
  get_elem?-set_self, length-gt_of_some, arith,
}
use riscv_em.Memory.{
  Outcome, MemoryRegion, MemoryMap, load, store, load_region, store_region, load_at, store_at, ptr,
  find_region, region_at, through, replace_region, access_bytes, load_bytes, store_bytes,
}

-- RAM is this region of the memory map.
pub record RamIn (m : MemoryMap) (i : ℕ) (r : MemoryRegion) : Type 0 where
  pub direct : m.ram_direct ≡ some i
  pub region : get_elem? m.regions i ≡ some r
  pub base : r.base_addr ≡ 0x80000000
  pub small : r.size < 2 ^ 63

-- A range of addresses of RAM.
pub record Inside (addr len : ℕ) (r : MemoryRegion) : Type 0 where
  pub above : 0x80000000 ≤ addr
  pub below : addr + len ≤ 0x80000000 + r.size

-- A region with a byte written at an offset.
unfoldable pub with_byte : ℕ → ℕ → MemoryRegion → MemoryRegion
with_byte p b r = record r { data_at = λ k. if k == p then u8 b else r.data_at k }

module _ (m : MemoryMap) (i : ℕ) (r : MemoryRegion) (ram : RamIn m i r) where
  pub load-byte :
      (addr : ℕ) → Inside addr 1 r → load addr 8 m ≡ Outcome.done (r.data_at (addr - 0x80000000))
  unfolding load find_region region_at through load_region ptr access_bytes load_at load_bytes
  load-byte addr inside = ground (arith, ram, inside)

  abbrev pub with_ram : MemoryRegion → MemoryMap
  with_ram r' = record m { regions = set m.regions i r' }

  pub store-byte :
      (addr b : ℕ)
      → Inside addr 1 r
      → store addr 8 b m ≡ Outcome.done (with_ram (with_byte (addr - 0x80000000) b r))
  unfolding store find_region region_at through store_region ptr access_bytes store_at store_bytes
      replace_region with_byte
  store-byte addr b inside = ground (arith, ram, inside)

  pub with_ram-RamIn : (p b : ℕ) → RamIn (with_ram (with_byte p b r)) i (with_byte p b r)
  unfolding with_byte
  with_ram-RamIn p b = record {
    direct = ram.direct;
    region =
        get_elem?-set_self m.regions i (with_byte p b r) (length-gt_of_some m.regions i ram.region);
    base = ram.base;
    small = ram.small;
  }
