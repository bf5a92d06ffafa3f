-- ===== src/Memory/Copy.antt =====
-- `copy_mem` and `copy_mem_safe` of include/memory_map.hpp: a copy of a range, cut at the region's end.
use riscv_em.Base.{
  ℕ, zero, suc, ◌+◌, ◌-◌, ◌≤◌, ◌<◌, ◌^◌, u64, sub64, ltb, leb, if◌then◌else◌, List, [], ◌∷◌, Option,
  none, some, arith,
}
use riscv_em.Memory.{
  Outcome, MemoryRegion, MemoryMap, ptr, find_region, find_region_safe, through, region_at,
}

-- So many bytes from an offset on.
unfoldable pub bytes_from : ℕ → ℕ → (ℕ → ℕ) → List ℕ
bytes_from zero p bytes = []
bytes_from (suc n) p bytes = bytes p ∷ bytes_from n (p + 1) bytes

-- The size of the copy. The sums are 64-bit ones.
pub clipped : ℕ → ℕ → MemoryRegion → ℕ
clipped addr size r =
    let last = u64 (r.base_addr + r.size) in
    if ltb last (u64 (addr + size)) then sub64 last addr else size

pub copy_region : ℕ → ℕ → MemoryRegion → Outcome (List ℕ)
copy_region addr size r = elim (ptr addr r) [
  | Outcome.done p ↦
      if leb (p + clipped addr size r) r.size
      then Outcome.done (bytes_from (clipped addr size r) p r.data_at)
      else Outcome.undefined
  | Outcome.throws ↦ Outcome.throws
  | Outcome.undefined ↦ Outcome.undefined
]

pub copy_mem : ℕ → ℕ → MemoryMap → Outcome (List ℕ)
copy_mem addr size m = elim (find_region addr m) [
  | Outcome.done i ↦ through (region_at i m) (copy_region addr size)
  | Outcome.throws ↦ Outcome.throws
  | Outcome.undefined ↦ Outcome.undefined
]

-- What a copy that may fail reports: nothing where no region covers the address.
pub found_bytes : Outcome (List ℕ) → Outcome (Option (List ℕ))
found_bytes (Outcome.done bytes) = Outcome.done (some bytes)
found_bytes Outcome.throws = Outcome.throws
found_bytes Outcome.undefined = Outcome.undefined

pub copy_mem_safe : ℕ → ℕ → MemoryMap → Outcome (Option (List ℕ))
copy_mem_safe addr size m = elim (find_region_safe addr m) [
  | some i ↦ found_bytes (through (region_at (some i) m) (copy_region addr size))
  | none ↦ Outcome.done none
]

-- A copy of a range that does not wrap around stays in its region.
clipped-Fits :
    (addr size : ℕ) (r : MemoryRegion)
    → r.base_addr ≤ addr
    → addr < r.base_addr + r.size
    → r.base_addr + r.size < 2 ^ 64
    → addr + size < 2 ^ 64
    → (addr - r.base_addr) + clipped addr size r ≤ r.size
unfolding clipped
clipped-Fits addr size r above below short shorter = ground arith
