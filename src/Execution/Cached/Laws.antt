-- ===== src/Execution/Cached/Laws.antt =====
-- The cache changes nothing: a cycle with it is a cycle with the tables.
use riscv_em.Base.{ℕ, ◌≡◌, refl, subst, false, Bool-cases, Option-cases, inl, inr, none, some}
use riscv_em.Traps.{exc_illegal_instruction}
use riscv_em.Hart.{Hart}
use riscv_em.Hart.Trap.{trap}
use riscv_em.Memory.{Outcome}
use riscv_em.Memory.Mmio.{Mmio}
use riscv_em.Isa.{InstructionData}
use riscv_em.Decoder.Op.{Op}
use riscv_em.Decoder.Table.{Lut}
use riscv_em.Decoder.Cache.{InstructionCache, Cache, decode_inst}
use riscv_em.Decoder.Cache.Sound.{Sound, decode_inst-Sound, exec_fence_i-Sound}
use riscv_em.Execution.{begin_cycle, fetch, run, tick, retire}
use riscv_em.Execution.Cached.{
  is_fence_i, cache_after, flushed, single_inst, with_cache, run_entry, run_cached, tick_cached,
  decode_entry, decode_tables,
}

module _ {D : Type 0} where
  -- A cycle without the cache, and what is left of the cache after it.
  unfoldable pub Refines :
      (Cache Op → Type 0) → Outcome (Hart × Mmio D × Cache Op) → Outcome (Hart × Mmio D) → Type 0
  Refines P (Outcome.done (h, m, cache)) plain = (plain ≡ Outcome.done (h, m)) × P cache
  Refines P Outcome.throws plain = plain ≡ Outcome.throws
  Refines P Outcome.undefined plain = plain ≡ Outcome.undefined

  with_cache-Refines :
      (P : Cache Op → Type 0) (o : Outcome (Hart × Mmio D)) (cache : Cache Op)
      → P cache
      → Refines P (with_cache o cache) o
  unfolding Refines with_cache
  with_cache-Refines P (Outcome.done (h, m)) cache p = (refl, p)
  with_cache-Refines P Outcome.throws cache p = refl
  with_cache-Refines P Outcome.undefined cache p = refl

module _ (pext : ℕ → ℕ → ℕ) (lut lut16 : Lut Op) where
  cache_after-Sound :
      (op : Op) (d : InstructionData) (h : Hart) (cache : Cache Op)
      → Sound pext lut lut16 cache
      → Sound pext lut lut16 (cache_after op d h cache)
  unfolding cache_after
  cache_after-Sound op d h cache sound = elim (Bool-cases (is_fence_i op)) [
    | inl fence ↦ rw fence (exec_fence_i-Sound pext lut lut16 d h cache)
    | inr other ↦ rw other sound
  ]

  flushed-Sound :
      (entry : InstructionCache Op) (h : Hart) (cache : Cache Op)
      → Sound pext lut lut16 cache
      → Sound pext lut lut16 (flushed entry h cache)
  unfolding flushed
  flushed-Sound entry h cache sound = elim (Option-cases entry.inst) [
    | inl missing ↦ rw missing sound
    | inr (dinst, at) ↦ rw at (cache_after-Sound dinst.func entry.decoded h cache sound)
  ]

module _ {D : Type 0} (pext : ℕ → ℕ → ℕ) (lut lut16 : Lut Op) (junk : ℕ) where
  -- What `run` does with an entry.
  abbrev run_plain : ℕ → Hart → Mmio D → InstructionCache Op → Outcome (Hart × Mmio D)
  run_plain inst h m entry = elim (decode_entry pext lut lut16 junk entry) [
    | some func ↦ retire (func h m)
    | none ↦ Outcome.done (trap exc_illegal_instruction inst false h, m)
  ]

  run_entry-Refines :
      (inst : ℕ) (entry : InstructionCache Op) (h : Hart) (m : Mmio D) (cache : Cache Op)
      → Sound pext lut lut16 cache
      → Refines
          (Sound pext lut lut16)
          (run_entry junk inst entry h m cache)
          (run_plain inst h m entry)
  unfolding run_entry decode_entry Refines single_inst flushed
  run_entry-Refines inst entry h m cache sound = elim (Bool-cases entry.valid) [
    | inl valid ↦ rw valid (
        with_cache-Refines (Sound pext lut lut16) (retire (single_inst junk entry h m))
          (flushed entry h cache) (flushed-Sound pext lut lut16 entry h cache sound))
    | inr invalid ↦ rw invalid (refl, sound)
  ]

  run_cached-Refines :
      (fetched : Outcome (ℕ × Hart × Mmio D)) (cache : Cache Op)
      → Sound pext lut lut16 cache
      → Refines
          (Sound pext lut lut16)
          (run_cached pext lut lut16 junk fetched cache)
          (run (decode_tables pext lut lut16 junk) fetched)
  unfolding run_cached run decode_tables
  run_cached-Refines (Outcome.done (inst, h, m)) cache sound =
      let (same, still) = decode_inst-Sound pext lut lut16 h.pc inst cache sound in
      let (entry, cache') = decode_inst pext lut lut16 h.pc inst cache in
      subst
        (λ e.
          Refines (Sound pext lut lut16) (run_entry junk inst entry h m cache')
            (run_plain inst h m e))
        same (run_entry-Refines inst entry h m cache' still)
  run_cached-Refines Outcome.throws cache sound = unfold Refines in refl
  run_cached-Refines Outcome.undefined cache sound = unfold Refines in refl

  -- A cycle with the decoder's cache is a cycle in which each word is decoded from the tables: the
  -- hart and the bus end in the same state, and a sound cache stays sound.
  pub tick_cached-Refines :
      (h : Hart) (m : Mmio D) (cache : Cache Op)
      → Sound pext lut lut16 cache
      → Refines
          (Sound pext lut lut16)
          (tick_cached pext lut lut16 junk h m cache)
          (tick (decode_tables pext lut lut16 junk) h m)
  unfolding tick_cached tick begin_cycle
  tick_cached-Refines h m cache sound =
      let g = begin_cycle h in
      elim (Bool-cases g.wfi) [
        | inl waits ↦ rw waits (unfold Refines in (refl, sound))
        | inr runs ↦ rw runs (run_cached-Refines (fetch g.pc g m) cache sound)
      ]
