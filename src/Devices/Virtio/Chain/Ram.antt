-- ===== src/Devices/Virtio/Chain/Ram.antt =====
-- What the block device copies to RAM is there, and what it copies from RAM is what was there.
use riscv_em.Base.{
  ℕ, zero, suc, ◌+◌, ◌-◌, ◌^◌, ◌<◌, ◌≡◌, refl, subst, ap, ◌∙◌, u64, List, [], ◌∷◌, length, arith,
}
use riscv_em.Memory.{Outcome, MemoryRegion, MemoryMap}
use riscv_em.Memory.Ram.{RamIn, Inside, with_byte, with_ram, load-byte, store-byte, with_ram-RamIn}
use riscv_em.Memory.Copy.{bytes_from}
use riscv_em.Memory.Results.{◌>>=◌}
use riscv_em.Devices.Virtio.Chain.{copy_from_dram, copy_to_dram}

-- A list of bytes.
unfoldable pub Bytes : List ℕ → Type 0
Bytes [] = Unit
Bytes (b ∷ bytes) = (b < 2 ^ 8) × Bytes bytes

-- A region with bytes written from an offset on.
pub with_bytes : ℕ → List ℕ → MemoryRegion → MemoryRegion
with_bytes p [] r = r
with_bytes p (b ∷ bytes) r = with_bytes (p + 1) bytes (with_byte p b r)

-- The bytes of RAM.
pub copy_from_dram-bytes :
    (addr len : ℕ) (m : MemoryMap) (i : ℕ) (r : MemoryRegion)
    → RamIn m i r
    → Inside addr len r
    → copy_from_dram addr len m ≡ Outcome.done (bytes_from len (addr - 0x80000000) r.data_at)
unfolding copy_from_dram bytes_from ◌>>=◌
copy_from_dram-bytes addr zero m i r ram inside = refl
copy_from_dram-bytes addr (suc len) m i r ram inside =
    let next : u64 (addr + 1) ≡ addr + 1 = omega (arith, ram.small, inside.below) in
    let offset : addr + 1 - 0x80000000 ≡ addr - 0x80000000 + 1 = omega (arith, inside.above) in
    rw
      (
        load-byte m i r ram addr
            (record { above = inside.above; below = omega (arith, inside.below) }),
        next,
        copy_from_dram-bytes (addr + 1) len m i r ram
            (record { above = omega (arith, inside.above); below = omega (arith, inside.below) }),
        offset,
      )
      refl

-- RAM after bytes have been copied to it.
pub copy_to_dram-bytes :
    (addr : ℕ) (src : List ℕ) (m : MemoryMap) (i : ℕ) (r : MemoryRegion)
    → RamIn m i r
    → Inside addr (length src) r
    → (m' : MemoryMap) × (copy_to_dram addr src m ≡ Outcome.done m')
      × RamIn m' i (with_bytes (addr - 0x80000000) src r)
unfolding copy_to_dram with_bytes with_byte ◌>>=◌
copy_to_dram-bytes addr [] m i r ram inside = (m, refl, ram)
copy_to_dram-bytes addr (b ∷ src) m i r ram inside =
    let p = addr - 0x80000000 in
    let r1 = with_byte p b r in
    let m1 = with_ram m i r ram r1 in
    let next : u64 (addr + 1) ≡ addr + 1 = omega (arith, ram.small, inside.below) in
    let offset : addr + 1 - 0x80000000 ≡ p + 1 = omega (arith, inside.above) in
    let (m', copied, ram') =
      copy_to_dram-bytes (addr + 1) src m1 i r1 (with_ram-RamIn m i r ram p b)
        (record { above = omega (arith, inside.above); below = omega (arith, inside.below) }) in
    let stored =
      store-byte m i r ram addr b
        (record { above = inside.above; below = omega (arith, inside.below) }) in
    (
      m',
      ap (λ o. o >>= copy_to_dram (u64 (addr + 1)) src) stored
          ∙ ap (λ (a : ℕ). copy_to_dram a src m1) next
          ∙ copied,
      subst (λ (k : ℕ). RamIn m' i (with_bytes k src r1)) offset ram',
    )

with_bytes-below :
    (bytes : List ℕ) (p k : ℕ) (r : MemoryRegion)
    → k < p
    → (with_bytes p bytes r).data_at k ≡ r.data_at k
unfolding with_bytes with_byte
with_bytes-below [] p k r low = refl
with_bytes-below (b ∷ bytes) p k r low =
    with_bytes-below bytes (p + 1) k (with_byte p b r) (omega arith) ∙ ground arith

with_bytes-size : (bytes : List ℕ) (p : ℕ) (r : MemoryRegion) → (with_bytes p bytes r).size ≡ r.size
unfolding with_bytes with_byte
with_bytes-size [] p r = refl
with_bytes-size (b ∷ bytes) p r = with_bytes-size bytes (p + 1) (with_byte p b r)

-- The bytes that were written.
pub bytes_from-with_bytes :
    (bytes : List ℕ) (p : ℕ) (r : MemoryRegion)
    → Bytes bytes
    → bytes_from (length bytes) p (with_bytes p bytes r).data_at ≡ bytes
unfolding with_bytes bytes_from Bytes with_byte
bytes_from-with_bytes [] p r all = refl
bytes_from-with_bytes (b ∷ bytes) p r (small, all) =
    let r1 = with_byte p b r in
    let first : (with_bytes (p + 1) bytes r1).data_at p ≡ b =
      with_bytes-below bytes (p + 1) p r1 (omega arith) ∙ ground (arith, small) in
    rw (first, bytes_from-with_bytes bytes (p + 1) r1 all) refl

-- What is copied to RAM is what is read there afterwards.
pub copy_from_dram-copy_to_dram :
    (addr : ℕ) (src : List ℕ) (m : MemoryMap) (i : ℕ) (r : MemoryRegion)
    → RamIn m i r
    → Inside addr (length src) r
    → Bytes src
    → (m' : MemoryMap) × (copy_to_dram addr src m ≡ Outcome.done m')
      × (copy_from_dram addr (length src) m' ≡ Outcome.done src)
copy_from_dram-copy_to_dram addr src m i r ram inside all =
    let p = addr - 0x80000000 in
    let (m', copied, ram') = copy_to_dram-bytes addr src m i r ram inside in
    let sized : (with_bytes p src r).size ≡ r.size = with_bytes-size src p r in
    (
      m',
      copied,
      copy_from_dram-bytes addr (length src) m' i (with_bytes p src r) ram'
            (record { above = inside.above; below = omega (arith, inside.below, sized) })
          ∙ ap Outcome.done (bytes_from-with_bytes src p r all),
    )
