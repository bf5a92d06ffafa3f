-- ===== src/Isa/Atomic/Laws.antt =====
-- A store-conditional after its load-reserved, and the read-modify-write of a value in RAM.
use riscv_em.Base.{
  ℕ, ◌+◌, ◌*◌, ◌/◌, ◌%◌, ◌^◌, ◌<◌, ◌≡◌, refl, leb, add64, true, ◌&&◌, Bool-cases, inl, inr, some,
  arith,
}
use riscv_em.Traps.{MemorySize, size_code}
use riscv_em.Hart.{Hart}
use riscv_em.Memory.{Outcome, MemoryRegion}
use riscv_em.Memory.Mmio.{Mmio, success, amo_check_reservation, in_dram, read}
use riscv_em.Memory.Mmio.Ram.{RamAt, after, held, read-held, write-read}
use riscv_em.Isa.Atomic.{
  release, reserved, amo_lr, amo_sc, amo64, reserve, conditional, modify, written_back,
}

-- The hart with a reservation.
abbrev pub reserving : ℕ → MemorySize → Hart → Hart
reserving va size h = record h {
  reservation = record { vaddr = va; size = size_code size; valid = true };
}

reserved-reserving :
    (va : ℕ) (size : MemorySize) (h : Hart) → reserved va size (reserving va size h) ≡ true
reserved-reserving va size h = ground arith

module _ {D : Type 0} (m : Mmio D) (i : ℕ) (r : MemoryRegion) (at : RamAt m i r) (va : ℕ)
    (size : MemorySize) (room : va + 8 < 2 ^ 64) (hit : in_dram va size m.memsize ≡ true) where
  released : (h : Hart) → release (amo_check_reservation va h) ≡ release h
  unfolding amo_check_reservation
  released h =
      let r = h.reservation in
      elim (Bool-cases (r.valid && (leb va r.vaddr && leb va (add64 r.vaddr r.size)))) [
        | inl ends ↦ rw (amo_check_reservation, ends) refl
        | inr stays ↦ rw (amo_check_reservation, stays) refl
      ]

  -- A load-reserved of RAM gives what is there. A store-conditional to the same place then succeeds: it
  -- stores, and reports 0 in the lowest byte of the result. A second store-conditional reports 1 in
  -- that byte and changes nothing. The other bytes of both results are those of `junk`, the value
  -- that the result's variable has before the call.
  pub amo_sc-amo_lr :
      (val again junk : ℕ) (h : Hart)
      → (amo_lr va size h m
          ≡ Outcome.done (success, some (held m i r at va size room hit), reserving va size h, m))
        × (amo_sc junk va size val (reserving va size h) m
            ≡ Outcome.done (
              success,
              some (junk / 2 ^ 8 * 2 ^ 8 + 0),
              release (reserving va size h),
              after m i r at va size val,
            ))
        × (amo_sc junk va size again (release (reserving va size h)) (after m i r at va size val)
            ≡ Outcome.done (
              success,
              some (junk / 2 ^ 8 * 2 ^ 8 + 1),
              release (reserving va size h),
              after m i r at va size val,
            ))
  unfolding amo_lr amo_sc reserve conditional
  amo_sc-amo_lr val again junk h = (
    rw (read-held m i r at va size room hit h) refl,
    rw
        (
          reserved-reserving va size h,
          (write-read m i r at va size room hit val (reserving va size h) h).0,
          released (reserving va size h),
        )
        refl,
    refl,
  )

-- A read-modify-write of a doubleword in RAM hands out the old value, and what is read then is the
-- function of the old value and the operand.
pub amo64-read :
    {D : Type 0} (m : Mmio D) (i : ℕ) (r : MemoryRegion) (at : RamAt m i r) (va : ℕ)
    (room : va + 8 < 2 ^ 64) (hit : in_dram va MemorySize.long m.memsize ≡ true) (rs2 : ℕ)
    (func : ℕ → ℕ → ℕ) (h g : Hart)
    → let old = held m i r at va MemorySize.long room hit in
      let m' = after m i r at va MemorySize.long (func old rs2) in
      (read va MemorySize.long h m ≡ Outcome.done (success, some old, h, m))
      × (amo64 va rs2 func h m ≡ Outcome.done (success, some old, amo_check_reservation va h, m'))
      × (read va MemorySize.long g m' ≡ Outcome.done (success, some (func old rs2 % 2 ^ 64), g, m'))
unfolding amo64 modify written_back
amo64-read m i r at va room hit rs2 func h g =
    let old = held m i r at va MemorySize.long room hit in
    let (stored, loaded) = write-read m i r at va MemorySize.long room hit (func old rs2) h g in
    let first = read-held m i r at va MemorySize.long room hit h in
    (first, rw (first, stored) refl, loaded)
