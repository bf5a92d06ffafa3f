-- ===== src/Memory/Mmio/Tests.antt =====
-- A bus with RAM and no device.
use riscv_em.Base.{ℕ, ◌≡◌, refl, ◌*◌, ◌%◌, ◌^◌, arith, some, [], ◌∷◌}
use riscv_em.Traps.{MemorySize, size_code}
use riscv_em.Hart.Samples.{user_hart, machine_hart}
use riscv_em.Memory.{Outcome, MemoryRegion}
use riscv_em.Memory.Mmio.{Mmio, success, amo_check_reservation, read, write}
use riscv_em.Memory.Mmio.Ram.{RamAt, after, write-read}

abbrev pub ram : MemoryRegion
ram = record { base_addr = 0x80000000; size = 0x1000; data_at = λ i. 0 }

abbrev pub bus : Mmio ℕ
bus = record {
  memsize = 0x1000;
  devs = [];
  mmap = record { regions = ram ∷ []; ram_direct = some 0 };
  state = 0;
}

pub bus-RamAt : RamAt bus 0 ram
bus-RamAt = record { direct = refl; region = refl; base = refl; sized = refl; small = omega arith }

write-read_example :
    (write 0x80000010 MemorySize.int 0x1122334455 user_hart bus
      ≡ Outcome.done (
        success,
        amo_check_reservation 0x80000010 user_hart,
        after bus 0 ram bus-RamAt 0x80000010 MemorySize.int 0x1122334455,
      ))
    × (read 0x80000010 MemorySize.int machine_hart
          (after bus 0 ram bus-RamAt 0x80000010 MemorySize.int 0x1122334455)
        ≡ Outcome.done (
          success,
          some (0x1122334455 % 2 ^ (8 * size_code MemorySize.int)),
          machine_hart,
          after bus 0 ram bus-RamAt 0x80000010 MemorySize.int 0x1122334455,
        ))
write-read_example =
    write-read bus 0 ram bus-RamAt 0x80000010 MemorySize.int (omega arith) refl 0x1122334455
      user_hart machine_hart
