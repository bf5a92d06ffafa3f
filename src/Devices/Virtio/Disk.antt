-- ===== src/Devices/Virtio/Disk.antt =====
-- A request of the block device: the disk image and the data descriptors.
pub mod Requests
use riscv_em.Base.{
  ℕ, zero, suc, ◌+◌, ◌-◌, ◌*◌, ◌%◌, u64, ltb, ◌==◌, if◌then◌else◌, Bool, true, false, not, ◌&&◌,
  List, [], ◌∷◌, ◌++◌, length, replicate, take, drop, Option, none, some,
}
use riscv_em.Memory.{Outcome, MemoryMap}
use riscv_em.Memory.Results.{◌>>=◌}
use riscv_em.Devices.Virtio.{
  VirtqDesc, VirtioBlkReq, Stdio, sector_size, virtio_blk_t_in, virtio_blk_t_out,
}
use riscv_em.Devices.Virtio.Chain.{copy_from_dram, copy_to_dram, is_writable}

-- The bytes that were read, with zeros behind them.
pub padded : ℕ → List ℕ → List ℕ
padded bytes data_read = data_read ++ replicate (bytes - length data_read) 0

pub data_total : List VirtqDesc → ℕ
data_total [] = 0
data_total (d ∷ rest) = d.len + data_total rest

-- The loop that looks for the status descriptor: the last one that the device may write, and the
-- data descriptors before it.
pub found_status :
    VirtqDesc → Option (List VirtqDesc × VirtqDesc) → Option (List VirtqDesc × VirtqDesc)
found_status d (some (before, status)) = some (d ∷ before, status)
found_status d none = if is_writable d then some ([], d) else none

pub split_status : List VirtqDesc → Option (List VirtqDesc × VirtqDesc)
split_status [] = none
split_status (d ∷ rest) = found_status d (split_status rest)

-- The loop that hands the buffer out to the data descriptors. It ends behind a descriptor that the
-- device may not write, which still gets its bytes.
pub fill : List VirtqDesc → List ℕ → MemoryMap → Outcome (Bool × MemoryMap)
fill [] buffer m = Outcome.done (true, m)
fill (d ∷ rest) buffer m = do
  m' ← copy_to_dram d.addr (take d.len buffer) m
  elim (is_writable d) [
    | true ↦ fill rest (drop d.len buffer) m'
    | false ↦ Outcome.done (false, m')
  ]

-- The loop that collects the data descriptors, from place `pos` of a buffer of so many bytes on.
pub drain : ℕ → ℕ → List VirtqDesc → MemoryMap → Outcome (Bool × List ℕ)
drain total pos [] m = Outcome.done (true, [])
drain total pos (d ∷ rest) m = do
  bytes ← copy_from_dram d.addr d.len m
  (ok, more) ← drain total (pos + d.len) rest m
  Outcome.done (not (ltb total (pos + d.len)) && ok, bytes ++ more)

module _ {F : Type 0} (io : Stdio F) where
  -- The bytes, or `none` where the disk cannot be read.
  pub disk_read : ℕ → ℕ → Option F → Option (List ℕ) × Option F
  disk_read sector bytes none = (none, none)
  disk_read sector bytes (some file) =
      let (found, file') = io.fseek (u64 (sector * sector_size)) file in
      let (data_read, file'') = io.fread bytes file' in
      if found then (some (padded bytes data_read), some file'') else (none, some file')

  pub disk_write : ℕ → List ℕ → Option F → Bool × Option F
  disk_write sector buf none = (false, none)
  disk_write sector buf (some file) =
      let (found, file') = io.fseek (u64 (sector * sector_size)) file in
      let (n, file'') = io.fwrite buf file' in
      if found
      then (if n == length buf then (true, some (io.fflush file'')) else (false, some file''))
      else (false, some file')

  -- The bytes of the disk go to guest memory.
  pub read_in :
      List VirtqDesc
      → Option (List ℕ) × Option F
      → MemoryMap
      → Outcome (Bool × Option F × MemoryMap)
  read_in descs (none, disk) m = Outcome.done (false, disk, m)
  read_in descs (some buffer, disk) m = do
    (ok, m') ← fill descs buffer m
    Outcome.done (ok, disk, m')

  -- The bytes of guest memory go to the disk.
  pub write_out :
      VirtioBlkReq → List VirtqDesc → Option F → MemoryMap → Outcome (Bool × Option F × MemoryMap)
  write_out req descs disk m = do
    (fits, buffer) ← drain (data_total descs) 0 descs m
    let (written, disk') = disk_write req.sector buffer disk
    Outcome.done (fits && ((data_total descs % 512 == 0) && written), disk', m)

  -- The operation of the request's type.
  pub operate :
      VirtioBlkReq → List VirtqDesc → Option F → MemoryMap → Outcome (Bool × Option F × MemoryMap)
  operate req descs disk m =
      if req.type == virtio_blk_t_in
      then read_in descs (disk_read req.sector (data_total descs) disk) m
      else if req.type == virtio_blk_t_out
      then write_out req descs disk m
      else Outcome.done (false, disk, m)
