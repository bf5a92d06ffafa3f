-- ===== src/Isa/Atomic/Tests.antt =====
-- Atomic accesses to the RAM of the bus's tests.
use riscv_em.Base.{ℕ, ◌+◌, ◌%◌, ◌^◌, ◌≡◌, refl, some, arith}
use riscv_em.Traps.{MemorySize}
use riscv_em.Hart.Samples.{machine_hart, user_hart}
use riscv_em.Memory.{Outcome}
use riscv_em.Memory.Mmio.{success, amo_check_reservation, read}
use riscv_em.Memory.Mmio.Ram.{after, held}
use riscv_em.Memory.Mmio.Tests.{bus, ram, bus-RamAt}
use riscv_em.Isa.Atomic.{release, amo_lr, amo_sc, amo64}
use riscv_em.Isa.Atomic.Laws.{reserving, amo_sc-amo_lr, amo64-read}

amo_sc-amo_lr_example :
    (amo_lr 0x80000010 MemorySize.long user_hart bus
      ≡ Outcome.done (
        success,
        some (held bus 0 ram bus-RamAt 0x80000010 MemorySize.long (omega arith) refl),
        reserving 0x80000010 MemorySize.long user_hart,
        bus,
      ))
    × (amo_sc 0xcccccccccccccccc 0x80000010 MemorySize.long 7
          (reserving 0x80000010 MemorySize.long user_hart)
          bus
        ≡ Outcome.done (
          success,
          some 0xcccccccccccccc00,
          release (reserving 0x80000010 MemorySize.long user_hart),
          after bus 0 ram bus-RamAt 0x80000010 MemorySize.long 7,
        ))
    × (amo_sc 0xcccccccccccccccc 0x80000010 MemorySize.long 8
          (release (reserving 0x80000010 MemorySize.long user_hart))
          (after bus 0 ram bus-RamAt 0x80000010 MemorySize.long 7)
        ≡ Outcome.done (
          success,
          some 0xcccccccccccccc01,
          release (reserving 0x80000010 MemorySize.long user_hart),
          after bus 0 ram bus-RamAt 0x80000010 MemorySize.long 7,
        ))
amo_sc-amo_lr_example =
    amo_sc-amo_lr bus 0 ram bus-RamAt 0x80000010 MemorySize.long (omega arith) refl 7 8
      0xcccccccccccccccc user_hart

abbrev old_word : ℕ
old_word = held bus 0 ram bus-RamAt 0x80000010 MemorySize.long (omega arith) refl

amo64-read_example :
    (read 0x80000010 MemorySize.long user_hart bus
      ≡ Outcome.done (success, some old_word, user_hart, bus))
    × (amo64 0x80000010 5 (λ a b. a + b) user_hart bus
        ≡ Outcome.done (
          success,
          some old_word,
          amo_check_reservation 0x80000010 user_hart,
          after bus 0 ram bus-RamAt 0x80000010 MemorySize.long (old_word + 5),
        ))
    × (read 0x80000010 MemorySize.long machine_hart
          (after bus 0 ram bus-RamAt 0x80000010 MemorySize.long (old_word + 5))
        ≡ Outcome.done (
          success,
          some ((old_word + 5) % 2 ^ 64),
          machine_hart,
          after bus 0 ram bus-RamAt 0x80000010 MemorySize.long (old_word + 5),
        ))
amo64-read_example =
    amo64-read bus 0 ram bus-RamAt 0x80000010 (omega arith) refl 5 (λ a b. a + b) user_hart
      machine_hart
