-- ===== src/Devices/Virtio/Tests.antt =====
-- A block device with an image of one sector, and a queue of four descriptors in RAM.
use riscv_em.Base.{
  ℕ, ◌^◌, ◌≤◌, ◌<◌, ◌≡◌, ◌≢◌, ◌↔◌, refl, length, ◌==◌, if◌then◌else◌, true, List, [], ◌∷◌, Option,
  some, take, arith,
}
use riscv_em.Memory.{Outcome, MemoryRegion, MemoryMap}
use riscv_em.Memory.Copy.{bytes_from}
use riscv_em.Memory.Results.{Ensures}
use riscv_em.Devices.Virtio.{VirtqDesc, VirtioBlk, VirtQueueState, Stdio, init, no_queue}
use riscv_em.Devices.Virtio.Chain.{copy_from_dram, fetch_descriptor_chain, is_writable}
use riscv_em.Devices.Virtio.Chain.Linked.{Linked, fetch_descriptor_chain-Linked}
use riscv_em.Devices.Virtio.Disk.{operate}
use riscv_em.Devices.Virtio.Disk.Requests.{operate-in-operate_out}
use riscv_em.Devices.Virtio.Queue.{process_queue}
use riscv_em.Devices.Virtio.Queue.Rounds.{Handled, process_queue-Handled}

-- An image that holds what was written last.
abbrev one_sector : Stdio (List ℕ)
one_sector = record {
  fseek = λ offset file. (true, file);
  fread = λ n file. (take n file, file);
  fwrite = λ buf file. (length buf, buf);
  fflush = λ file. file;
}

-- The descriptor table is at the start of RAM: a header, a buffer and a status. The available ring
-- follows at 0x40 with one entry, the used ring at 0x80 and the request at 0x100.
abbrev contents : ℕ → ℕ
contents k =
    if k == 0x01
    then 1
    else if k == 0x03
    then 0x80
    else if k == 0x08
    then 16
    else if k == 0x0c
    then 1
    else if k == 0x0e
    then 1
    else if k == 0x11
    then 2
    else if k == 0x13
    then 0x80
    else if k == 0x18
    then 1
    else if k == 0x1c
    then 2
    else if k == 0x42
    then 1
    else 0

abbrev ram : MemoryRegion
ram = record { base_addr = 0x80000000; size = 0x1000; data_at = contents }

abbrev memory : MemoryMap
memory = record { regions = ram ∷ []; ram_direct = some 0 }

abbrev queue : VirtQueueState
queue = record no_queue {
  size = 4;
  desc_addr = 0x80000000;
  avail_addr = 0x80000040;
  used_addr = 0x80000080;
  ready = true;
}

abbrev plugged : VirtioBlk (List ℕ)
plugged = init 0x10001000 (some ([], 512))

abbrev waiting : VirtioBlk (List ℕ)
waiting = record plugged { queue0 = queue }

abbrev header : VirtqDesc
header = record { addr = 0x80000100; len = 16; flags = 1; next = 1 }

abbrev status : VirtqDesc
status = record { addr = 0x80000200; len = 1; flags = 2; next = 0 }

fetch_descriptor_chain-Linked_example :
    (fetch_descriptor_chain 0 queue memory ≡ Outcome.done (some (header ∷ status ∷ []))) ↔ (
      (queue.desc_addr ≢ 0)
      × Linked queue memory 0 (header ∷ status ∷ [])
      × (length (header ∷ status ∷ []) ≤ queue.size))
fetch_descriptor_chain-Linked_example =
    fetch_descriptor_chain-Linked 0 queue memory (header ∷ status ∷ [])

process_queue-Handled_example :
    (o : Outcome (VirtioBlk (List ℕ) × MemoryMap)) × (process_queue one_sector 0 waiting memory
      ≡ some o)
    × Ensures (Handled 0 waiting memory) o
process_queue-Handled_example =
    process_queue-Handled one_sector 0 waiting memory
      (record { avail = omega arith; used = omega arith })

-- Two buffers of one sector.
abbrev buffer : ℕ → VirtqDesc
buffer addr = record { addr = addr; len = 512; flags = 2; next = 0 }

contents-small : (k : ℕ) → contents k < 2 ^ 8
contents-small k = ground arith

operate-in-operate_out_example :
    (disk disk' : Option (List ℕ)) × (m' : MemoryMap) × (operate one_sector
        (record { type = 1; reserved = 0; sector = 0 })
        (buffer 0x80000000 ∷ [])
        (some [])
        memory
      ≡ Outcome.done (true, disk, memory))
    × (operate one_sector
          (record { type = 0; reserved = 0; sector = 0 })
          (buffer 0x80000400 ∷ [])
          disk
          memory
        ≡ Outcome.done (true, disk', m'))
    × (copy_from_dram 0x80000400 512 m' ≡ copy_from_dram 0x80000000 512 memory)
unfolding is_writable bytes_from
operate-in-operate_out_example =
    operate-in-operate_out one_sector [] memory 0 ram 0 0 0 (buffer 0x80000000) (buffer 0x80000400)
      (record { direct = refl; region = refl; base = refl; small = omega arith }) contents-small
      (record { above = omega arith; below = omega arith })
      (record { above = omega arith; below = omega arith }) refl refl refl
      (record { found = refl; written = refl; found_again = refl; read_back = refl })
