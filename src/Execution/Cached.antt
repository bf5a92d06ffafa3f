-- ===== src/Execution/Cached.antt =====
-- `Hart::tick` of src/hart.cpp with the decoder of src/decode.cpp: the state is the hart, the bus and
-- the decoder's cache.
pub mod Laws
mod Tests
use riscv_em.Base.{ℕ, if◌then◌else◌, Bool, true, false, Option, none, some}
use riscv_em.Traps.{ExecReturn, exc_illegal_instruction}
use riscv_em.Hart.{Hart}
use riscv_em.Hart.Trap.{trap}
use riscv_em.Memory.{Outcome}
use riscv_em.Memory.Mmio.{Mmio}
use riscv_em.Isa.{InstructionData}
use riscv_em.Isa.Transfers.{Step}
use riscv_em.Decoder.{Instruction}
use riscv_em.Decoder.Op.{Op}
use riscv_em.Decoder.Table.{Lut}
use riscv_em.Decoder.Cache.{InstructionCache, Cache, fresh, decode_inst, exec_fence_i}
use riscv_em.Execution.{begin_cycle, waiting, fetch, finish, retire}
use riscv_em.Execution.Calls.{call}

-- What FENCE.I does to the cache; every other instruction leaves it alone.
pub is_fence_i : Op → Bool
is_fence_i Op.op_fence_i = true
is_fence_i _ = false

pub cache_after : Op → InstructionData → Hart → Cache Op → Cache Op
cache_after op d h cache = if is_fence_i op then (exec_fence_i d h cache).2 else cache

pub flushed : InstructionCache Op → Hart → Cache Op → Cache Op
flushed entry h cache = elim entry.inst [
  | some dinst ↦ cache_after dinst.func entry.decoded h cache
  | none ↦ cache
]

module _ {D : Type 0} where
  -- `single_inst`: the call through the entry's pointers.
  unfoldable pub single_inst : ℕ → InstructionCache Op → Hart → Mmio D → Step D
  single_inst junk entry h m = elim entry.inst [
    | some dinst ↦ call junk dinst.func entry.decoded h m
    | none ↦ Outcome.undefined
  ]

  pub with_cache : Outcome (Hart × Mmio D) → Cache Op → Outcome (Hart × Mmio D × Cache Op)
  with_cache (Outcome.done (h, m)) cache = Outcome.done (h, m, cache)
  with_cache Outcome.throws cache = Outcome.throws
  with_cache Outcome.undefined cache = Outcome.undefined

  -- The entry runs, or an illegal instruction is reported.
  pub run_entry :
      ℕ → ℕ → InstructionCache Op → Hart → Mmio D → Cache Op → Outcome (Hart × Mmio D × Cache Op)
  run_entry junk inst entry h m cache =
      if entry.valid
      then with_cache (retire (single_inst junk entry h m)) (flushed entry h cache)
      else Outcome.done (trap exc_illegal_instruction inst false h, m, cache)

module _ {D : Type 0} (pext : ℕ → ℕ → ℕ) (lut lut16 : Lut Op) (junk : ℕ) where
  pub run_cached : Outcome (ℕ × Hart × Mmio D) → Cache Op → Outcome (Hart × Mmio D × Cache Op)
  run_cached (Outcome.done (inst, h, m)) cache =
      let (entry, cache') = decode_inst pext lut lut16 h.pc inst cache in
      run_entry junk inst entry h m cache'
  run_cached Outcome.throws cache = Outcome.throws
  run_cached Outcome.undefined cache = Outcome.undefined

  pub tick_cached : Hart → Mmio D → Cache Op → Outcome (Hart × Mmio D × Cache Op)
  tick_cached h m cache =
      let g = begin_cycle h in
      if g.wfi then Outcome.done (waiting g, m, cache) else run_cached (fetch g.pc g m) cache

  -- The decoder without its cache, as the argument of `Execution.tick`.
  pub decode_entry : InstructionCache Op → Option (Hart → Mmio D → Step D)
  decode_entry entry = if entry.valid then some (λ h m. single_inst junk entry h m) else none

  pub decode_tables : ℕ → ℕ → Option (Hart → Mmio D → Step D)
  decode_tables pc inst = decode_entry (fresh pext lut lut16 pc inst)
