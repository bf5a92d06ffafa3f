-- ===== src/Devices/Virtio/Chain.antt =====
-- The descriptors of the queue, and bytes of guest memory.
pub mod Linked
pub mod Ram
use riscv_em.Base.{
  ℕ, zero, suc, ◌+◌, ◌*◌, ◌%◌, u16, u32, u64, bit_and, nonzero, ◌==◌, if◌then◌else◌, Bool, true,
  false, List, [], ◌∷◌, Option, none, some,
}
use riscv_em.Memory.{Outcome, MemoryMap, load, store}
use riscv_em.Memory.Results.{◌>>=◌}
use riscv_em.Devices.Virtio.{
  VirtqDesc, VirtQueueState, virtq_desc_f_next, virtq_desc_f_write, virtq_desc_size,
}

pub copy_from_dram : ℕ → ℕ → MemoryMap → Outcome (List ℕ)
copy_from_dram gpa zero m = Outcome.done []
copy_from_dram gpa (suc len) m = do
  b ← load gpa 8 m
  rest ← copy_from_dram (u64 (gpa + 1)) len m
  Outcome.done (b ∷ rest)

pub copy_to_dram : ℕ → List ℕ → MemoryMap → Outcome MemoryMap
copy_to_dram gpa [] m = Outcome.done m
copy_to_dram gpa (b ∷ src) m = do m' ← store gpa 8 b m; copy_to_dram (u64 (gpa + 1)) src m'

pub has_next : VirtqDesc → Bool
has_next d = nonzero (bit_and d.flags virtq_desc_f_next)

unfoldable pub is_writable : VirtqDesc → Bool
is_writable d = nonzero (bit_and d.flags virtq_desc_f_write)

pub load_desc : ℕ → VirtQueueState → MemoryMap → Outcome VirtqDesc
load_desc idx q m =
    let desc_addr = u64 (q.desc_addr + idx * virtq_desc_size) in
    do
      addr ← load desc_addr 64 m
      len ← load (u64 (desc_addr + 8)) 32 m
      flags ← load (u64 (desc_addr + 12)) 16 m
      next ← load (u64 (desc_addr + 14)) 16 m
      Outcome.done (record { addr = addr; len = u32 len; flags = u16 flags; next = u16 next })

-- A chain goes on behind a descriptor, if the rest of it ends in time.
pub behind : VirtqDesc → Option (List VirtqDesc) → Option (List VirtqDesc)
behind d none = none
behind d (some chain) = some (d ∷ chain)

-- A descriptor and, if there is one after it, what the next rounds give.
pub go_on : Bool → VirtqDesc → Outcome (Option (List VirtqDesc)) → Outcome (Option (List VirtqDesc))
go_on true d rest = rest >>= λ chain. Outcome.done (behind d chain)
go_on false d rest = Outcome.done (some (d ∷ []))

-- The loop, with so many rounds left.
pub fetch_from : ℕ → ℕ → VirtQueueState → MemoryMap → Outcome (Option (List VirtqDesc))
fetch_from zero idx q m = Outcome.done none
fetch_from (suc rounds) idx q m =
    load_desc idx q m >>= λ d. go_on (has_next d) d (fetch_from rounds d.next q m)

-- The chain, or `none` where it is malformed.
pub fetch_descriptor_chain : ℕ → VirtQueueState → MemoryMap → Outcome (Option (List VirtqDesc))
fetch_descriptor_chain head q m =
    if q.desc_addr == 0 then Outcome.done none else fetch_from q.size head q m
