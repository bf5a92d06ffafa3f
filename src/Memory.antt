-- ===== src/Memory.antt =====
-- include/memory_map.hpp: memory regions of bytes and the little-endian accesses to them.
pub mod Bytes
pub mod Mmio
pub mod Copy
pub mod Results
pub mod Ram
use riscv_em.Base.{
  ℕ, zero, suc, ◌+◌, ◌-◌, ◌*◌, ◌/◌, ◌^◌, u8, u64, bit_or, ltb, leb, ◌==◌, if◌then◌else◌, Bool, ◌&&◌,
  List, [], ◌∷◌, ◌++◌, length, Option, none, some, get_elem?, set,
}

-- What a call does: it returns a value, it throws an exception, or it leaves C++'s defined
-- behaviour (a null pointer or an access outside of an allocated array).
pub data Outcome (A : Type 0) : Type 0 where
  done : A → Outcome A
  throws : Outcome A
  undefined : Outcome A

pub record MemoryRegion : Type 0 where
  pub base_addr : ℕ
  pub size : ℕ
  pub data_at : ℕ → ℕ

-- Is the address in the region? The sum is a 64-bit one.
abbrev pub covers : ℕ → MemoryRegion → Bool
covers addr r = leb r.base_addr addr && ltb addr (u64 (r.base_addr + r.size))

-- `ptr`: the offset of the address.
pub ptr : ℕ → MemoryRegion → Outcome ℕ
ptr addr r = if covers addr r then Outcome.done (addr - r.base_addr) else Outcome.throws

-- `ptr_safe`
pub ptr_safe : ℕ → MemoryRegion → Option ℕ
ptr_safe addr r = if covers addr r then some (addr - r.base_addr) else none

-- The bytes from an offset on, the first one the lowest.
pub load_bytes : ℕ → ℕ → (ℕ → ℕ) → ℕ
load_bytes zero p bytes = 0
load_bytes (suc n) p bytes = bytes p + 2 ^ 8 * load_bytes n (p + 1) bytes

-- The same number of bytes written.
pub store_bytes : ℕ → ℕ → ℕ → (ℕ → ℕ) → (ℕ → ℕ)
store_bytes zero p value bytes = bytes
store_bytes (suc n) p value bytes =
    λ i. if i == p then u8 value else store_bytes n (p + 1) (value / 2 ^ 8) bytes i

-- An access of `n` bytes at an offset, if the array has them.
pub load_at : ℕ → ℕ → MemoryRegion → Outcome ℕ
load_at n p r =
    if leb (p + n) r.size then Outcome.done (load_bytes n p r.data_at) else Outcome.undefined

pub store_at : ℕ → ℕ → ℕ → MemoryRegion → Outcome MemoryRegion
store_at n p value r =
    if leb (p + n) r.size
    then Outcome.done (record r { data_at = store_bytes n p value r.data_at })
    else Outcome.undefined

-- The number of bytes of an access of so many bits; other sizes are an error.
pub access_bytes : ℕ → Option ℕ
access_bytes size =
    if size == 8
    then some 1
    else if size == 16
    then some 2
    else if size == 32
    then some 4
    else if size == 64
    then some 8
    else none

pub load_region : ℕ → ℕ → MemoryRegion → Outcome ℕ
load_region addr size r = elim (ptr addr r) [
  | Outcome.done p ↦ elim (access_bytes size) [ some n ↦ load_at n p r | none ↦ Outcome.throws ]
  | Outcome.throws ↦ Outcome.throws
  | Outcome.undefined ↦ Outcome.undefined
]

pub store_region : ℕ → ℕ → ℕ → MemoryRegion → Outcome MemoryRegion
store_region addr size value r = elim (ptr addr r) [
  | Outcome.done p ↦ elim (access_bytes size) [
    | some n ↦ store_at n p value r
    | none ↦ Outcome.throws
  ]
  | Outcome.throws ↦ Outcome.throws
  | Outcome.undefined ↦ Outcome.undefined
]

-- `load_safe`, where the region is the one that `find_region_safe` gives.
pub load_region_safe : ℕ → ℕ → MemoryRegion → Outcome (Option ℕ)
load_region_safe addr size r = elim (ptr_safe addr r) [
  | some p ↦ elim (access_bytes size) [
    | some n ↦ elim (load_at n p r) [
      | Outcome.done v ↦ Outcome.done (some v)
      | Outcome.throws ↦ Outcome.throws
      | Outcome.undefined ↦ Outcome.undefined
    ]
    | none ↦ Outcome.done none
  ]
  | none ↦ Outcome.done none
]

-- The regions in the order of their creation, and the place in that order of `ram_direct`.
pub record MemoryMap : Type 0 where
  pub regions : List MemoryRegion
  pub ram_direct : Option ℕ

-- `add_region`
pub add_region : ℕ → ℕ → MemoryMap → MemoryMap
add_region base size m =
    let region : MemoryRegion = record { base_addr = base; size = size; data_at = λ i. 0 } in
    record {
      regions = m.regions ++ (region ∷ []);
      ram_direct = if leb 0x80000000 base then some (length m.regions) else m.ram_direct;
    }

-- The loop of `find_region`: the first region that covers the address.
pub first_covering : ℕ → ℕ → List MemoryRegion → Option ℕ
first_covering addr i [] = none
first_covering addr i (r ∷ rest) =
    if covers addr r then some i else first_covering addr (i + 1) rest

-- `find_region` gives a pointer, null where there is no RAM yet.
pub find_region : ℕ → MemoryMap → Outcome (Option ℕ)
find_region addr m =
    if leb 0x80000000 addr
    then Outcome.done m.ram_direct
    else elim (first_covering addr 0 m.regions) [
      | some i ↦ Outcome.done (some i)
      | none ↦ Outcome.throws
    ]

-- `find_region_safe`
pub find_region_safe : ℕ → MemoryMap → Option ℕ
find_region_safe addr m = first_covering addr 0 m.regions

-- A member function called through the pointer that was found.
pub through : {A : Type 0} → Option MemoryRegion → (MemoryRegion → Outcome A) → Outcome A
through none f = Outcome.undefined
through (some r) f = f r

pub region_at : Option ℕ → MemoryMap → Option MemoryRegion
region_at none m = none
region_at (some i) m = get_elem? m.regions i

pub load : ℕ → ℕ → MemoryMap → Outcome ℕ
load addr size m = elim (find_region addr m) [
  | Outcome.done i ↦ through (region_at i m) (load_region addr size)
  | Outcome.throws ↦ Outcome.throws
  | Outcome.undefined ↦ Outcome.undefined
]

pub replace_region : Option ℕ → MemoryMap → Outcome MemoryRegion → Outcome MemoryMap
replace_region (some i) m (Outcome.done r) = Outcome.done (record m { regions = set m.regions i r })
replace_region none m (Outcome.done r) = Outcome.undefined
replace_region i m Outcome.throws = Outcome.throws
replace_region i m Outcome.undefined = Outcome.undefined

pub store : ℕ → ℕ → ℕ → MemoryMap → Outcome MemoryMap
store addr size value m = elim (find_region addr m) [
  | Outcome.done i ↦ replace_region i m (through (region_at i m) (store_region addr size value))
  | Outcome.throws ↦ Outcome.throws
  | Outcome.undefined ↦ Outcome.undefined
]

-- `load_safe`
pub load_safe : ℕ → ℕ → MemoryMap → Outcome (Option ℕ)
load_safe addr size m = elim (find_region_safe addr m) [
  | some i ↦ through (region_at (some i) m) (load_region_safe addr size)
  | none ↦ Outcome.done none
]
