-- ===== src/Devices/Virtio.antt =====
-- src/devices/virtio_blk.cpp with include/devices/virtio_blk.hpp: the block device. The stream of the
-- disk image is a parameter: a table of the C library's calls on its state `F`.
pub mod Chain
pub mod Disk
pub mod Queue
pub mod Bus
mod Tests
use riscv_em.Base.{ℕ, ◌+◌, ◌/◌, ◌^◌, Bool, false, List, [], Option, none, some}

pub record VirtqDesc : Type 0 where
  pub addr : ℕ
  pub len : ℕ
  pub flags : ℕ
  pub next : ℕ

pub record VirtioBlkReq : Type 0 where
  pub type : ℕ
  pub reserved : ℕ
  pub sector : ℕ

pub record VirtQueueState : Type 0 where
  pub size : ℕ
  pub desc_addr : ℕ
  pub avail_addr : ℕ
  pub used_addr : ℕ
  pub last_avail_idx : ℕ
  pub last_used_idx : ℕ
  pub ready : Bool

-- `fseek` from the start, with whether it succeeded, `fread` of at most so many bytes, `fwrite` with
-- the number of bytes that it wrote, and `fflush`.
pub record Stdio (F : Type 0) : Type 0 where
  pub fseek : ℕ → F → Bool × F
  pub fread : ℕ → F → List ℕ × F
  pub fwrite : List ℕ → F → ℕ × F
  pub fflush : F → F

-- `told` has the levels of the calls of `PLIC::set_pending`, the last one first.
pub record VirtioBlk (F : Type 0) : Type 0 where
  pub start : ℕ
  pub disk : Option F
  pub device_features : ℕ
  pub driver_features : ℕ
  pub device_features_sel : ℕ
  pub driver_features_sel : ℕ
  pub device_status : ℕ
  pub interrupt_status : ℕ
  pub queue_sel : ℕ
  pub queue0 : VirtQueueState
  pub config_generation : ℕ
  pub capacity_sectors : ℕ
  pub told : List Bool

abbrev pub virtq_desc_f_next : ℕ
virtq_desc_f_next = 1

abbrev pub virtq_desc_f_write : ℕ
virtq_desc_f_write = 2

abbrev pub virtio_blk_t_in : ℕ
virtio_blk_t_in = 0

abbrev pub virtio_blk_t_out : ℕ
virtio_blk_t_out = 1

abbrev pub virtq_desc_size : ℕ
virtq_desc_size = 16

abbrev pub sector_size : ℕ
sector_size = 512

abbrev pub virtio_f_version_1 : ℕ
virtio_f_version_1 = 2 ^ 32

abbrev pub virt_status_features_ok : ℕ
virt_status_features_ok = 8

abbrev pub no_queue : VirtQueueState
no_queue = record {
  size = 0;
  desc_addr = 0;
  avail_addr = 0;
  used_addr = 0;
  last_avail_idx = 0;
  last_used_idx = 0;
  ready = false;
}

module _ {F : Type 0} where
  -- The constructor, without the device tree: an image comes with its size in bytes, as `ftell` gives
  -- it, which is 0 where that fails.
  pub init : ℕ → Option (F × ℕ) → VirtioBlk F
  init start image = record {
    start = start;
    disk = elim image [ some (file, size) ↦ some file | none ↦ none ];
    device_features = virtio_f_version_1;
    driver_features = 0;
    device_features_sel = 0;
    driver_features_sel = 0;
    device_status = 0;
    interrupt_status = 0;
    queue_sel = 0;
    queue0 = no_queue;
    config_generation = 0;
    capacity_sectors = elim image [ some (file, size) ↦ size / sector_size | none ↦ 0 ];
    told = [];
  }
