-- ===== src/Devices/Virtio/Disk/Requests.antt =====
-- A write request and a read request of the same sectors.
use riscv_em.Base.{
  ℕ, zero, suc, ◌+◌, ◌-◌, ◌*◌, ◌%◌, ◌^◌, ◌<◌, ◌≡◌, refl, sym, subst, ap, ◌∙◌, u64, ltb, ◌==◌, Bool,
  true, false, not, ◌&&◌, List, [], ◌∷◌, ◌++◌, length, take, replicate, Option, some, if_true,
  if_false, arith,
}
use riscv_em.Memory.{Outcome, MemoryRegion, MemoryMap}
use riscv_em.Memory.Ram.{RamIn, Inside}
use riscv_em.Memory.Copy.{bytes_from}
use riscv_em.Memory.Results.{◌>>=◌}
use riscv_em.Devices.Virtio.{VirtqDesc, VirtioBlkReq, Stdio, sector_size}
use riscv_em.Devices.Virtio.Chain.{copy_from_dram, copy_to_dram, is_writable}
use riscv_em.Devices.Virtio.Chain.Ram.{Bytes, copy_from_dram-bytes, copy_from_dram-copy_to_dram}
use riscv_em.Devices.Virtio.Disk.{
  padded, data_total, fill, drain, disk_read, disk_write, read_in, write_out, operate,
}

take-all : (xs : List ℕ) → take (length xs) xs ≡ xs
take-all [] = refl
take-all (x ∷ xs) = ap (λ l. x ∷ l) (take-all xs)

append-nil : (xs : List ℕ) → xs ++ [] ≡ xs
append-nil [] = refl
append-nil (x ∷ xs) = ap (λ l. x ∷ l) (append-nil xs)

padded-full : (xs : List ℕ) → padded (length xs) xs ≡ xs
unfolding padded
padded-full xs =
    let none_left : length xs - length xs ≡ 0 = omega arith in
    ap (λ (k : ℕ). xs ++ replicate k 0) none_left ∙ append-nil xs

length-bytes_from : (n p : ℕ) (f : ℕ → ℕ) → length (bytes_from n p f) ≡ n
unfolding bytes_from
length-bytes_from zero p f = refl
length-bytes_from (suc n) p f = ap suc (length-bytes_from n (p + 1) f)

bytes_from-Bytes : (n p : ℕ) (f : ℕ → ℕ) → ((k : ℕ) → f k < 2 ^ 8) → Bytes (bytes_from n p f)
unfolding bytes_from Bytes
bytes_from-Bytes zero p f small = tt
bytes_from-Bytes (suc n) p f small = (small p, bytes_from-Bytes n (p + 1) f small)

data_total-one : (d : VirtqDesc) → data_total (d ∷ []) ≡ d.len
unfolding data_total
data_total-one d = omega arith

module _ {F : Type 0} (io : Stdio F) where
  -- The image after bytes have been written at an offset.
  abbrev pub image_after : ℕ → List ℕ → F → F
  image_after offset buf file = io.fflush (io.fwrite buf (io.fseek offset file).1).1

  -- The image can be written at an offset, and what is written is what is read there afterwards.
  pub record Remembers (offset : ℕ) (file : F) (buf : List ℕ) : Type 0 where
    pub found : (io.fseek offset file).0 ≡ true
    pub written : (io.fwrite buf (io.fseek offset file).1).0 ≡ length buf
    pub found_again : (io.fseek offset (image_after offset buf file)).0 ≡ true
    pub read_back :
        (io.fread (length buf) (io.fseek offset (image_after offset buf file)).1).0 ≡ buf

  disk_write-after :
      (sector : ℕ) (file : F) (buf : List ℕ)
      → Remembers (u64 (sector * sector_size)) file buf
      → disk_write io sector buf (some file)
        ≡ (true, some (image_after (u64 (sector * sector_size)) buf file))
  unfolding disk_write
  disk_write-after sector file buf law =
      let (n, after) = io.fwrite buf (io.fseek (u64 (sector * sector_size)) file).1 in
      let whole : (n == length buf) ≡ true = ground (arith, law.written) in
      if_true law.found _ _ ∙ if_true whole (true, some (io.fflush after)) (false, some after)

  disk_read-after :
      (sector : ℕ) (file : F) (buf : List ℕ)
      → Remembers (u64 (sector * sector_size)) file buf
      → (disk : Option F) × (disk_read io sector
            (length buf)
            (some (image_after (u64 (sector * sector_size)) buf file))
          ≡ (some buf, disk))
  unfolding disk_read
  disk_read-after sector file buf law =
      let (data_read, after) =
        io.fread (length buf)
          (io.fseek (u64 (sector * sector_size))
            (image_after (u64 (sector * sector_size)) buf file)).1 in
      let same : padded (length buf) data_read ≡ buf =
        ap (padded (length buf)) law.read_back ∙ padded-full buf in
      (some after, if_true law.found_again _ _ ∙ ap (λ (l : List ℕ). (some l, some after)) same)

  drain-one :
      (d : VirtqDesc) (m : MemoryMap) (buf : List ℕ)
      → copy_from_dram d.addr d.len m ≡ Outcome.done buf
      → drain (data_total (d ∷ [])) 0 (d ∷ []) m ≡ Outcome.done (true, buf)
  unfolding drain data_total ◌>>=◌
  drain-one d m buf copied =
      let fits : (not (ltb (d.len + 0) (0 + d.len)) && true) ≡ true = ground arith in
      ap (λ o. o >>= λ bytes. Outcome.done (not (ltb (d.len + 0) (0 + d.len)) && true, bytes ++ []))
        copied
      ∙ ap (λ (ok : Bool). Outcome.done (ok, buf ++ [])) fits
      ∙ ap (λ (l : List ℕ). Outcome.done (true, l)) (append-nil buf)

  -- A write request with one data buffer in RAM.
  operate-out :
      (req : VirtioBlkReq) (d : VirtqDesc) (disk disk' : Option F) (m : MemoryMap) (buf : List ℕ)
      → req.type ≡ 1
      → copy_from_dram d.addr d.len m ≡ Outcome.done buf
      → d.len % 512 ≡ 0
      → disk_write io req.sector buf disk ≡ (true, disk')
      → operate io req (d ∷ []) disk m ≡ Outcome.done (true, disk', m)
  unfolding operate write_out ◌>>=◌
  operate-out req d disk disk' m buf is_out copied sectors written =
      let not_in : (req.type == 0) ≡ false = ground (arith, is_out) in
      let out : (req.type == 1) ≡ true = ground (arith, is_out) in
      let total : data_total (d ∷ []) ≡ d.len = data_total-one d in
      let whole : (data_total (d ∷ []) % 512 == 0) ≡ true = ground (arith, total, sectors) in
      if_false not_in (read_in io (d ∷ []) (disk_read io req.sector (data_total (d ∷ [])) disk) m) _
      ∙ if_true out (write_out io req (d ∷ []) disk m) (Outcome.done (false, disk, m))
      ∙ ap
          (λ o. o >>= λ result. Outcome.done (
            result.0
                && ((data_total (d ∷ []) % 512 == 0) && (disk_write io req.sector result.1 disk).0),
            (disk_write io req.sector result.1 disk).1,
            m,
          ))
          (drain-one d m buf copied)
      ∙ ap
          (λ (t : Bool).
            Outcome.done (
              t && (disk_write io req.sector buf disk).0,
              (disk_write io req.sector buf disk).1,
              m,
            ))
          whole
      ∙ ap (λ (w : Bool × Option F). Outcome.done (w.0, w.1, m)) written

  fill-one :
      (d : VirtqDesc) (m m' : MemoryMap) (buf : List ℕ)
      → is_writable d ≡ true
      → length buf ≡ d.len
      → copy_to_dram d.addr buf m ≡ Outcome.done m'
      → fill (d ∷ []) buf m ≡ Outcome.done (true, m')
  unfolding fill ◌>>=◌
  fill-one d m m' buf writable long copied =
      let all : take d.len buf ≡ buf = ap (λ (k : ℕ). take k buf) (sym long) ∙ take-all buf in
      rw (all, copied, writable) refl

  -- A read request with one data buffer in RAM.
  operate-in :
      (req : VirtioBlkReq) (d : VirtqDesc) (disk disk' : Option F) (m m' : MemoryMap) (buf : List ℕ)
      → req.type ≡ 0
      → is_writable d ≡ true
      → length buf ≡ d.len
      → disk_read io req.sector d.len disk ≡ (some buf, disk')
      → copy_to_dram d.addr buf m ≡ Outcome.done m'
      → operate io req (d ∷ []) disk m ≡ Outcome.done (true, disk', m')
  unfolding operate read_in ◌>>=◌
  operate-in req d disk disk' m m' buf is_in writable long found copied =
      let in_test : (req.type == 0) ≡ true = ground (arith, is_in) in
      if_true in_test _ _
      ∙ ap (λ (k : ℕ). read_in io (d ∷ []) (disk_read io req.sector k disk) m) (data_total-one d)
      ∙ ap (λ (answer : Option (List ℕ) × Option F). read_in io (d ∷ []) answer m) found
      ∙ ap (λ o. o >>= λ result. Outcome.done (result.0, disk', result.1))
          (fill-one d m m' buf writable long copied)

-- What a write request has put on the disk from one buffer in RAM, a later read request of the same
-- sectors puts into another buffer, if the image keeps what is written to it: both succeed, and the
-- second buffer then holds the bytes that the first one held.
pub operate-in-operate_out :
    {F : Type 0} (io : Stdio F) (file : F) (m : MemoryMap) (i : ℕ) (r : MemoryRegion)
    (sector reserved reserved' : ℕ) (d d' : VirtqDesc)
    → RamIn m i r
    → ((k : ℕ) → r.data_at k < 2 ^ 8)
    → Inside d.addr d.len r
    → Inside d'.addr d'.len r
    → d'.len ≡ d.len
    → d.len % 512 ≡ 0
    → is_writable d' ≡ true
    → Remembers io
        (u64 (sector * sector_size))
        file
        (bytes_from d.len (d.addr - 0x80000000) r.data_at)
    → (disk disk' : Option F) × (m' : MemoryMap) × (operate io
          (record { type = 1; reserved = reserved; sector = sector })
          (d ∷ [])
          (some file)
          m
        ≡ Outcome.done (true, disk, m))
      × (operate io (record { type = 0; reserved = reserved'; sector = sector }) (d' ∷ []) disk m
          ≡ Outcome.done (true, disk', m'))
      × (copy_from_dram d'.addr d'.len m' ≡ copy_from_dram d.addr d.len m)
operate-in-operate_out io file m i r sector reserved reserved' d d' ram bytes inside inside' same
      sectors writable law =
    let offset = u64 (sector * sector_size) in
    let buf = bytes_from d.len (d.addr - 0x80000000) r.data_at in
    let out = copy_from_dram-bytes d.addr d.len m i r ram inside in
    let long : length buf ≡ d.len = length-bytes_from d.len (d.addr - 0x80000000) r.data_at in
    let (disk', found) = disk_read-after io sector file buf law in
    let (m', copied, held) =
      copy_from_dram-copy_to_dram d'.addr buf m i r ram
        (record { above = inside'.above; below = omega (arith, inside'.below, long, same) })
        (bytes_from-Bytes d.len (d.addr - 0x80000000) r.data_at bytes) in
    let sized : length buf ≡ d'.len = long ∙ sym same in
    (
      some (image_after io offset buf file),
      disk',
      m',
      operate-out io (record { type = 1; reserved = reserved; sector = sector }) d (some file)
          (some (image_after io offset buf file)) m buf refl out sectors
          (disk_write-after io sector file buf law),
      operate-in io (record { type = 0; reserved = reserved'; sector = sector }) d'
          (some (image_after io offset buf file)) disk' m m' buf refl writable sized
          (subst
            (λ (k : ℕ).
              disk_read io sector k (some (image_after io offset buf file)) ≡ (some buf, disk'))
            sized found)
          copied,
      ap (λ (k : ℕ). copy_from_dram d'.addr k m') (sym sized) ∙ held ∙ sym out,
    )
