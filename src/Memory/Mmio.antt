-- ===== src/Memory/Mmio.antt =====
-- src/mmio.cpp: an access by a hart goes to RAM or to the first device whose range holds it. A device
-- is a table of its two functions. They act on the hart that accesses, on guest memory and on the rest
-- of the machine, `D`: the state of the devices and the other harts. A device may lower or raise a line
-- of the hart, and may serve a request in guest memory, which can fail as any access to it.
pub mod Ram
pub mod Tests
use riscv_em.Base.{
  ℕ, ◌+◌, ◌-◌, ◌*◌, ◌%◌, ◌^◌, u64, sub64, add64, ltb, leb, ◌==◌, if◌then◌else◌, Bool, true, false,
  ◌&&◌, List, [], ◌∷◌, Option, none, some,
}
use riscv_em.Traps.{
  MemorySize, size_code, MemoryReturn, exc_load_access_fault, exc_store_access_fault,
}
use riscv_em.Hart.{Hart, Reservation}
use riscv_em.Memory.{Outcome, MemoryRegion, MemoryMap, region_at, through, load_at, store}

-- include/device.hpp: the range of a device and its virtual functions.
pub record Device (D : Type 0) : Type 0 where
  pub start : ℕ
  pub size : ℕ
  pub read : ℕ → MemorySize → Hart → MemoryMap → D → Outcome (ℕ × Hart × MemoryMap × D)
  pub write : ℕ → MemorySize → ℕ → Hart → MemoryMap → D → Outcome (Hart × MemoryMap × D)

pub record Mmio (D : Type 0) : Type 0 where
  pub memsize : ℕ
  pub devs : List (Device D)
  pub mmap : MemoryMap
  pub state : D

abbrev pub success : MemoryReturn
success = record { is_success = true; exc_code = 0; tval = 0 }

abbrev pub fault : ℕ → ℕ → MemoryReturn
fault code vaddr = record { is_success = false; exc_code = code; tval = vaddr }

-- A hart's reservation ends with a write at its address or below. `size` is a number of bytes.
unfoldable pub amo_check_reservation : ℕ → Hart → Hart
amo_check_reservation va h =
    let r = h.reservation in
    if r.valid && (leb va r.vaddr && leb va (add64 r.vaddr r.size))
    then record h { reservation = record r { valid = false } }
    else h

-- The condition of the first branch; the sums are 64-bit ones.
abbrev pub in_dram : ℕ → MemorySize → ℕ → Bool
in_dram vaddr size memsize =
    leb 0x80000000 vaddr && leb (add64 vaddr (size_code size)) (add64 0x80000000 memsize)

-- The value is cut to the size when it is written to `val`; no value is written on a fault.
abbrev pub cut : ℕ → MemorySize → ℕ
cut out size = out % 2 ^ (size_code size * 8)

module _ {D : Type 0} where
  -- The device of a write, and the device of a read.
  pub write_hits : ℕ → MemorySize → Device D → Bool
  write_hits vaddr size dev =
      leb dev.start vaddr && ltb vaddr (sub64 (add64 dev.start dev.size) (size_code size))

  pub read_hits : ℕ → MemorySize → Device D → Bool
  read_hits vaddr size dev =
      leb dev.start vaddr && ltb vaddr (add64 (sub64 (add64 dev.start dev.size) (size_code size)) 1)

  pub first_hit : (Device D → Bool) → List (Device D) → Option (Device D)
  first_hit hits [] = none
  first_hit hits (dev ∷ rest) = if hits dev then some dev else first_hit hits rest

  -- The reservation is checked, then the bytes are stored.
  pub write_dram : ℕ → MemorySize → ℕ → Hart → Mmio D → Outcome (MemoryReturn × Hart × Mmio D)
  write_dram vaddr size val h m = elim (store vaddr (size_code size * 8) val m.mmap) [
    | Outcome.done mmap ↦
        Outcome.done (success, amo_check_reservation vaddr h, record m { mmap = mmap })
    | Outcome.throws ↦ Outcome.throws
    | Outcome.undefined ↦ Outcome.undefined
  ]

  -- After a device has served a write, and after one has answered a read.
  pub served : Mmio D → Outcome (Hart × MemoryMap × D) → Outcome (MemoryReturn × Hart × Mmio D)
  served m (Outcome.done (h, mmap, state)) =
      Outcome.done (success, h, record m { mmap = mmap; state = state })
  served m Outcome.throws = Outcome.throws
  served m Outcome.undefined = Outcome.undefined

  pub replied :
      MemorySize
      → Mmio D
      → Outcome (ℕ × Hart × MemoryMap × D)
      → Outcome (MemoryReturn × Option ℕ × Hart × Mmio D)
  replied size m (Outcome.done (out, h, mmap, state)) =
      Outcome.done (success, some (cut out size), h, record m { mmap = mmap; state = state })
  replied size m Outcome.throws = Outcome.throws
  replied size m Outcome.undefined = Outcome.undefined

  pub write : ℕ → MemorySize → ℕ → Hart → Mmio D → Outcome (MemoryReturn × Hart × Mmio D)
  write vaddr size val h m =
      if in_dram vaddr size m.memsize
      then write_dram vaddr size val h m
      else elim (first_hit (write_hits vaddr size) m.devs) [
        | some dev ↦
            served m (dev.write vaddr size val (amo_check_reservation vaddr h) m.mmap m.state)
        | none ↦ Outcome.done (fault exc_store_access_fault vaddr, h, m)
      ]

  -- The bytes at the offset from the start of RAM, with no check.
  pub read_dram_fast : ℕ → MemorySize → Mmio D → Outcome ℕ
  read_dram_fast vaddr size m =
      through (region_at m.mmap.ram_direct m.mmap)
        (load_at (size_code size) (sub64 vaddr 0x80000000))

  pub read : ℕ → MemorySize → Hart → Mmio D → Outcome (MemoryReturn × Option ℕ × Hart × Mmio D)
  read vaddr size h m =
      if in_dram vaddr size m.memsize
      then elim (read_dram_fast vaddr size m) [
        | Outcome.done out ↦ Outcome.done (success, some (cut out size), h, m)
        | Outcome.throws ↦ Outcome.throws
        | Outcome.undefined ↦ Outcome.undefined
      ]
      else elim (first_hit (read_hits vaddr size) m.devs) [
        | some dev ↦ replied size m (dev.read vaddr size h m.mmap m.state)
        | none ↦ Outcome.done (fault exc_load_access_fault vaddr, none, h, m)
      ]
