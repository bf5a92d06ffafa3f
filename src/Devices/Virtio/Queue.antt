-- ===== src/Devices/Virtio/Queue.antt =====
-- `process_queue`: the device serves the requests that the driver has made available.
pub mod Progress
pub mod Rounds
use riscv_em.Base.{
  ℕ, zero, suc, ◌+◌, ◌*◌, ◌/◌, ◌%◌, ◌^◌, u16, u64, bit_or, of_bool, not, ltb, ◌==◌, if◌then◌else◌,
  Bool, true, false, ◌||◌, List, [], ◌∷◌, length, Option, none, some,
}
use riscv_em.Memory.{Outcome, MemoryMap, load, store}
use riscv_em.Memory.Results.{◌>>=◌}
use riscv_em.Devices.Virtio.{VirtqDesc, VirtioBlkReq, VirtioBlk, Stdio}
use riscv_em.Devices.Virtio.Chain.{copy_from_dram, fetch_descriptor_chain}
use riscv_em.Devices.Virtio.Disk.{split_status, operate}

-- A little-endian number of bytes.
pub word_of : List ℕ → ℕ
word_of [] = 0
word_of (b ∷ bytes) = b + 2 ^ 8 * word_of bytes

-- The sixteen bytes of a request.
pub load_req : ℕ → MemoryMap → Outcome VirtioBlkReq
load_req addr m = do
  type ← copy_from_dram addr 4 m
  reserved ← copy_from_dram (u64 (addr + 4)) 4 m
  sector ← copy_from_dram (u64 (addr + 8)) 8 m
  Outcome.done
      (record { type = word_of type; reserved = word_of reserved; sector = word_of sector })

module _ {F : Type 0} where
  pub raise_irq : VirtioBlk F → VirtioBlk F
  raise_irq b = record b { told = true ∷ b.told }

  -- An entry of the available ring is over.
  pub skip : VirtioBlk F → VirtioBlk F
  skip b = record b {
    queue0 = record b.queue0 { last_avail_idx = u16 (b.queue0.last_avail_idx + 1) };
  }

  -- The chain goes to the used ring, and the driver is told.
  pub add_used : ℕ → VirtioBlk F → MemoryMap → Outcome (VirtioBlk F × MemoryMap)
  add_used head b m =
      let q = b.queue0 in
      let used_elem_addr = u64 (q.used_addr + 4 + q.last_used_idx % q.size * 8) in
      let last_used_idx = u16 (q.last_used_idx + 1) in
      do
        m1 ← store used_elem_addr 32 head m
        m2 ← store (u64 (used_elem_addr + 4)) 32 0 m1
        m3 ← store (u64 (q.used_addr + 2)) 16 last_used_idx m2
        Outcome.done (
          raise_irq (
              skip (record b {
                queue0 = record q { last_used_idx = last_used_idx };
                interrupt_status = bit_or b.interrupt_status 1;
              })),
          m3,
        )

  -- The rounds after one that returned.
  pub after_entry :
      (VirtioBlk F → MemoryMap → Option (Outcome (VirtioBlk F × MemoryMap)))
      → Outcome (VirtioBlk F × MemoryMap)
      → Option (Outcome (VirtioBlk F × MemoryMap))
  after_entry rounds (Outcome.done (b, m)) = rounds b m
  after_entry rounds Outcome.throws = some Outcome.throws
  after_entry rounds Outcome.undefined = some Outcome.undefined

  module _ (io : Stdio F) where
    -- The operation and its status byte, where there is a place for one.
    pub answer :
        VirtioBlkReq
        → Option (List VirtqDesc × VirtqDesc)
        → VirtioBlk F
        → MemoryMap
        → Outcome (VirtioBlk F × MemoryMap)
    answer req none b m = Outcome.done (b, m)
    answer req (some (descs, status)) b m = do
      (ok, disk, m') ← operate io req descs b.disk m
      m'' ← store status.addr 8 (of_bool (not ok)) m'
      Outcome.done (record b { disk = disk }, m'')

    -- A request whose chain has been fetched: a header, buffers and a status.
    pub serve_chain :
        ℕ → List VirtqDesc → VirtioBlk F → MemoryMap → Outcome (VirtioBlk F × MemoryMap)
    serve_chain head [] b m = Outcome.done (skip b, m)
    serve_chain head (header ∷ []) b m = Outcome.done (skip b, m)
    serve_chain head (header ∷ second ∷ rest) b m =
        if ltb header.len 16 then Outcome.done (skip b, m) else do
          req ← load_req header.addr m
          (b', m') ← answer req (split_status (second ∷ rest)) b m
          add_used head b' m'

    -- A malformed chain is skipped.
    pub serve_fetched :
        ℕ → Option (List VirtqDesc) → VirtioBlk F → MemoryMap → Outcome (VirtioBlk F × MemoryMap)
    serve_fetched head none b m = Outcome.done (skip b, m)
    serve_fetched head (some chain) b m = serve_chain head chain b m

    -- One round of the loop.
    pub serve_entry : VirtioBlk F → MemoryMap → Outcome (VirtioBlk F × MemoryMap)
    serve_entry b m =
        let q = b.queue0 in
        let ring_index = u16 (q.last_avail_idx % q.size) in
        do
          head ← load (u64 (q.avail_addr + 4 + ring_index * 2)) 16 m
          chain ← fetch_descriptor_chain (u16 head) q m
          serve_fetched (u16 head) chain b m

    -- The loop, with fuel: `none` says that it is not over when the fuel is.
    pub serve_from : ℕ → ℕ → VirtioBlk F → MemoryMap → Option (Outcome (VirtioBlk F × MemoryMap))
    serve_from zero avail_idx b m =
        if b.queue0.last_avail_idx == avail_idx then some (Outcome.done (b, m)) else none
    serve_from (suc fuel) avail_idx b m = elim (b.queue0.last_avail_idx == avail_idx) [
      | true ↦ some (Outcome.done (b, m))
      | false ↦ after_entry (serve_from fuel avail_idx) (serve_entry b m)
    ]

    -- The loop up to an index that the driver has written.
    pub serve_up_to :
        Outcome ℕ → VirtioBlk F → MemoryMap → Option (Outcome (VirtioBlk F × MemoryMap))
    serve_up_to (Outcome.done avail_idx) b m = serve_from (2 ^ 16) (u16 avail_idx) b m
    serve_up_to Outcome.throws b m = some Outcome.throws
    serve_up_to Outcome.undefined b m = some Outcome.undefined

    pub process_queue : ℕ → VirtioBlk F → MemoryMap → Option (Outcome (VirtioBlk F × MemoryMap))
    process_queue qsel b m =
        if not (qsel == 0) || (not b.queue0.ready || (b.queue0.size == 0))
        then some (Outcome.done (b, m))
        else serve_up_to (load (u64 (b.queue0.avail_addr + 2)) 16 m) b m
