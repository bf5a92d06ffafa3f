-- ===== src/Devices/Virtio/Bus.antt =====
-- The registers of the block device.
pub mod Registers
use riscv_em.Base.{
  ℕ, ◌+◌, ◌-◌, ◌*◌, ◌/◌, ◌%◌, ◌^◌, u32, not32, not64, sub64, bit_and, bit_or, nonzero, of_bool, not,
  ◌==◌, if◌then◌else◌, Bool, true, false, ◌&&◌, Option, none, some,
}
use riscv_em.Memory.{Outcome, MemoryMap}
use riscv_em.Devices.Virtio.{
  VirtioBlk, VirtQueueState, Stdio, no_queue, sector_size, virt_status_features_ok,
}
use riscv_em.Devices.Virtio.Queue.{process_queue}

-- Half of a 64-bit register.
pub low_word : ℕ → ℕ
low_word reg = u32 reg

pub high_word : ℕ → ℕ
high_word reg = u32 (reg / 2 ^ 32)

pub set_low : ℕ → ℕ → ℕ
set_low val reg = bit_or (bit_and reg (not64 0xffffffff)) (u32 val)

pub set_high : ℕ → ℕ → ℕ
set_high val reg = bit_or (bit_and reg 0xffffffff) (u32 val * 2 ^ 32)

module _ {F : Type 0} where
  -- The registers of the queue and of the capacity.
  pub read_queue : ℕ → VirtioBlk F → ℕ
  read_queue off b =
      if off == 0x80
      then low_word b.queue0.desc_addr
      else if off == 0x84
      then high_word b.queue0.desc_addr
      else if off == 0x90
      then low_word b.queue0.avail_addr
      else if off == 0x94
      then high_word b.queue0.avail_addr
      else if off == 0xa0
      then low_word b.queue0.used_addr
      else if off == 0xa4
      then high_word b.queue0.used_addr
      else if off == 0xfc
      then b.config_generation
      else if off == 0x100
      then low_word b.capacity_sectors
      else if off == 0x104
      then high_word b.capacity_sectors
      else if off == 0x10c
      then 128
      else if off == 0x144
      then sector_size
      else 0

  pub read : ℕ → VirtioBlk F → ℕ
  read addr b =
      let off = sub64 addr b.start in
      if off == 0x00
      then 0x74726976
      else if off == 0x04
      then 2
      else if off == 0x08
      then 2
      else if off == 0x0c
      then 0x554d4551
      else if off == 0x10
      then if b.device_features_sel == 0
        then low_word b.device_features
        else high_word b.device_features
      else if off == 0x14
      then b.device_features_sel
      else if off == 0x30
      then b.queue_sel
      else if off == 0x34
      then if b.queue_sel == 0 then 128 else 0
      else if off == 0x38
      then b.queue0.size
      else if off == 0x44
      then of_bool b.queue0.ready
      else if off == 0x60
      then b.interrupt_status
      else if off == 0x70
      then b.device_status
      else read_queue off b

  -- A register of the queue changes only while queue 0 is selected.
  pub set_queue : (VirtQueueState → VirtQueueState) → VirtioBlk F → VirtioBlk F
  set_queue f b = if b.queue_sel == 0 then record b { queue0 = f b.queue0 } else b

  pub write_driver_features : ℕ → VirtioBlk F → VirtioBlk F
  write_driver_features val b =
      if b.driver_features_sel == 0
      then record b { driver_features = set_low val b.driver_features }
      else record b { driver_features = set_high val b.driver_features }

  -- A write of 0 resets the device. Any other value adds its bits, but FEATURES_OK goes where the
  -- driver wants what the device has not.
  pub write_status : ℕ → VirtioBlk F → VirtioBlk F
  write_status val b =
      let reset = record b { device_status = 0; interrupt_status = 0; queue0 = no_queue } in
      let status = bit_or b.device_status (u32 val) in
      let unwanted = bit_and b.driver_features (not64 b.device_features) in
      let refused = nonzero (bit_and status virt_status_features_ok) && nonzero unwanted in
      let less = bit_and status (not32 virt_status_features_ok) in
      if val == 0 then reset else record b { device_status = if refused then less else status }

  pub write_queue : ℕ → ℕ → VirtioBlk F → VirtioBlk F
  write_queue off val b =
      if off == 0x80
      then set_queue (λ q. record q { desc_addr = set_low val q.desc_addr }) b
      else if off == 0x84
      then set_queue (λ q. record q { desc_addr = set_high val q.desc_addr }) b
      else if off == 0x90
      then set_queue (λ q. record q { avail_addr = set_low val q.avail_addr }) b
      else if off == 0x94
      then set_queue (λ q. record q { avail_addr = set_high val q.avail_addr }) b
      else if off == 0xa0
      then set_queue (λ q. record q { used_addr = set_low val q.used_addr }) b
      else if off == 0xa4
      then set_queue (λ q. record q { used_addr = set_high val q.used_addr }) b
      else b

  -- The registers whose write calls nothing.
  pub write_plain : ℕ → ℕ → VirtioBlk F → VirtioBlk F
  write_plain off val b =
      if off == 0x14
      then record b { device_features_sel = u32 val }
      else if off == 0x24
      then record b { driver_features_sel = u32 val }
      else if off == 0x20
      then write_driver_features val b
      else if off == 0x30
      then record b { queue_sel = u32 val }
      else if off == 0x38
      then set_queue (λ q. record q { size = u32 val }) b
      else if off == 0x44
      then set_queue (λ q. record q { ready = nonzero val }) b
      else if off == 0x64
      then record b { interrupt_status = bit_and b.interrupt_status (not32 (u32 val)) }
      else if off == 0x70
      then write_status val b
      else write_queue off val b

  pub write : Stdio F → ℕ → ℕ → VirtioBlk F → MemoryMap → Option (Outcome (VirtioBlk F × MemoryMap))
  write io addr val b m =
      let off = sub64 addr b.start in
      if off == 0x50
      then process_queue io (u32 val) b m
      else some (Outcome.done (write_plain off val b, m))
