-- ===== src/Devices/Virtio/Bus/Registers.antt =====
-- What the registers of the block device show after they are written.
use riscv_em.Base.{
  ℕ, ◌+◌, ◌-◌, ◌*◌, ◌/◌, ◌^◌, ◌<◌, ◌≡◌, ◌≢◌, ap, ◌∙◌, ◌↔◌, u32, not32, not64, bit_and, bit_or, ◌==◌,
  true, arith, if_true, ◌⊎◌,
}
use riscv_em.Base.Bits.{bit, bit-lt, bit-bit_and, bit-bit_or, bit_and-two_pow}
use riscv_em.Base.Masks.{bit_and-low, bit_and-high, bit_or-join, bit_or-join_low}
use riscv_em.Devices.Virtio.{VirtioBlk, VirtQueueState, virt_status_features_ok}
use riscv_em.Devices.Virtio.Bus.{
  low_word, high_word, set_low, set_high, set_queue, read_queue, write_plain, write_queue,
  write_status,
}

-- A 64-bit number in two halves.
halves : (reg : ℕ) → reg ≡ reg / 2 ^ 32 * 2 ^ 32 + u32 reg
halves reg = omega arith

-- The two halves of a 64-bit register.
set_low-value : (val reg : ℕ) → reg < 2 ^ 64 → set_low val reg ≡ reg / 2 ^ 32 * 2 ^ 32 + u32 val
unfolding set_low
set_low-value val reg small =
    let q = reg / 2 ^ 32 in
    let all : bit_and q (2 ^ 32 - 1) ≡ q =
      ap (λ (x : ℕ). bit_and x (2 ^ 32 - 1)) (omega arith) ∙ bit_and-low 32 0 q (omega arith) in
    let kept : bit_and reg (not64 0xffffffff) ≡ q * 2 ^ 32 =
      ap (λ (x : ℕ). bit_and x (not64 0xffffffff)) (halves reg)
      ∙ bit_and-high 32 q (u32 reg) (2 ^ 32 - 1) (omega arith)
      ∙ ap (λ (x : ℕ). x * 2 ^ 32) all in
    ap (λ (x : ℕ). bit_or x (u32 val)) kept ∙ bit_or-join 32 q (u32 val) (omega arith)

set_high-value : (val reg : ℕ) → set_high val reg ≡ u32 val * 2 ^ 32 + u32 reg
unfolding set_high
set_high-value val reg =
    let kept : bit_and reg 0xffffffff ≡ u32 reg =
      ap (λ (x : ℕ). bit_and x 0xffffffff) (halves reg)
      ∙ bit_and-low 32 (reg / 2 ^ 32) (u32 reg) (omega arith) in
    ap (λ (x : ℕ). bit_or x (u32 val * 2 ^ 32)) kept
    ∙ bit_or-join_low 32 (u32 val) (u32 reg) (omega arith)

-- Both halves written, in either order.
set_both :
    (low high reg : ℕ)
    → reg < 2 ^ 64
    → set_high high (set_low low reg) ≡ u32 high * 2 ^ 32 + u32 low
set_both low high reg small =
    omega (arith, set_high-value high (set_low low reg), set_low-value low reg small)

module _ {F : Type 0} where
  -- The addresses of the queue are 64-bit numbers.
  pub record Addresses (b : VirtioBlk F) : Type 0 where
    pub desc : b.queue0.desc_addr < 2 ^ 64
    pub avail : b.queue0.avail_addr < 2 ^ 64
    pub used : b.queue0.used_addr < 2 ^ 64

  set_queue_twice :
      (f g : VirtQueueState → VirtQueueState) (b : VirtioBlk F)
      → b.queue_sel ≡ 0
      → set_queue f (set_queue g b) ≡ record b { queue0 = f (g b.queue0) }
  unfolding set_queue
  set_queue_twice f g b selected =
      let is_selected : (b.queue_sel == 0) ≡ true = ground (arith, selected) in
      let once = record b { queue0 = g b.queue0 } in
      ap (set_queue f) (if_true is_selected once b)
      ∙ if_true is_selected (record b { queue0 = f (g b.queue0) }) once

  -- The two words of a register have been written, and the queue is then this one.
  abbrev pub Written : ℕ → ℕ → ℕ → VirtQueueState → VirtioBlk F → Type 0
  Written off low high q b =
      (write_plain (off + 4) high (write_plain off low b) ≡ record b { queue0 = q })
      × (read_queue off (record b { queue0 = q }) ≡ u32 low)
      × (read_queue (off + 4) (record b { queue0 = q }) ≡ u32 high)

  -- An address of queue 0 that the driver writes as two words is kept as the 64-bit number of both and
  -- reads back word by word, and nothing else changes.
  write_plain-Written :
      (low high : ℕ) (b : VirtioBlk F)
      → Addresses b
      → b.queue_sel ≡ 0
      → let addr = u32 high * 2 ^ 32 + u32 low in
        Written 0x80 low high (record b.queue0 { desc_addr = addr }) b
        × Written 0x90 low high (record b.queue0 { avail_addr = addr }) b
        × Written 0xa0 low high (record b.queue0 { used_addr = addr }) b
  unfolding write_plain write_queue read_queue low_word high_word
  write_plain-Written low high b small selected =
      let with_desc = λ (reg : ℕ). record b { queue0 = record b.queue0 { desc_addr = reg } } in
      let with_avail = λ (reg : ℕ). record b { queue0 = record b.queue0 { avail_addr = reg } } in
      let with_used = λ (reg : ℕ). record b { queue0 = record b.queue0 { used_addr = reg } } in
      (
        (
          set_queue_twice _ _ b selected
              ∙ ap with_desc (set_both low high b.queue0.desc_addr small.desc),
          omega arith,
          omega arith,
        ),
        (
          set_queue_twice _ _ b selected
              ∙ ap with_avail (set_both low high b.queue0.avail_addr small.avail),
          omega arith,
          omega arith,
        ),
        (
          set_queue_twice _ _ b selected
              ∙ ap with_used (set_both low high b.queue0.used_addr small.used),
          omega arith,
          omega arith,
        ),
      )

  -- After a status other than 0 is written, FEATURES_OK shows exactly if it was asked for, now or
  -- before, and the driver wants no feature that the device does not have.
  write_status-FeaturesOk :
      (val : ℕ) (b : VirtioBlk F)
      → val ≢ 0
      → (bit 3 (write_status val b).device_status ≡ 1) ↔ (
          ((bit 3 b.device_status ≡ 1) ⊎ (bit 3 (u32 val) ≡ 1))
          × (bit_and b.driver_features (not64 b.device_features) ≡ 0))
  unfolding write_status
  write_status-FeaturesOk val b written =
      let d = b.device_status in
      let status = bit_or d (u32 val) in
      let unwanted = bit_and b.driver_features (not64 b.device_features) in
      ground (
        arith,
        written,
        bit-bit_or 3 d (u32 val),
        bit-lt 3 d,
        bit-lt 3 (u32 val),
        bit_and-two_pow 3 status,
        bit-bit_and 3 status (not32 virt_status_features_ok),
      )
