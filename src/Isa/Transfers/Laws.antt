-- ===== src/Isa/Transfers/Laws.antt =====
-- A store followed by a load of the same address.
use riscv_em.Base.{ℕ, ◌+◌, ◌^◌, ◌<◌, ◌≡◌, refl, ap, ◌∙◌, true}
use native.Mathlib.Nat.{mod-eq_of_lt}
use riscv_em.Traps.{MemorySize}
use riscv_em.Hart.{Hart, set_gpr}
use riscv_em.Memory.{Outcome, MemoryRegion}
use riscv_em.Memory.Mmio.{Mmio, amo_check_reservation, in_dram, read}
use riscv_em.Memory.Mmio.Ram.{RamAt, after, write-read}
use riscv_em.Isa.{InstructionData, next}
use riscv_em.Isa.Transfers.{address, finish_load, finish_store, exec_ld, exec_sd}

module _ {D : Type 0} (m : Mmio D) (i : ℕ) (r : MemoryRegion) (at : RamAt m i r) where
  -- SD to RAM, then LD through any register and offset that give the same address, loads the value
  -- that was stored; both succeed.
  pub exec_ld-exec_sd :
      (d e : InstructionData) (h g : Hart)
      → address d h + 8 < 2 ^ 64
      → in_dram (address d h) MemorySize.long m.memsize ≡ true
      → h.gpr d.rs2 < 2 ^ 64
      → address e g ≡ address d h
      → (exec_sd d h m
          ≡ Outcome.done (
            next,
            amo_check_reservation (address d h) h,
            after m i r at (address d h) MemorySize.long (h.gpr d.rs2),
          ))
        × (exec_ld e g (after m i r at (address d h) MemorySize.long (h.gpr d.rs2))
            ≡ Outcome.done (
              next,
              set_gpr e.rd (h.gpr d.rs2) g,
              after m i r at (address d h) MemorySize.long (h.gpr d.rs2),
            ))
  unfolding exec_sd exec_ld finish_load finish_store
  exec_ld-exec_sd d e h g room hit word same =
      let (stored, loaded) =
        write-read m i r at (address d h) MemorySize.long room hit (h.gpr d.rs2) h g in
      let m' = after m i r at (address d h) MemorySize.long (h.gpr d.rs2) in
      (
        rw stored refl,
        ap (λ (a : ℕ). finish_load (λ v. v) e (read a MemorySize.long g m')) same
            ∙ ap (finish_load (λ v. v) e) loaded
            ∙ ap (λ (v : ℕ). Outcome.done (next, set_gpr e.rd v g, m')) (mod-eq_of_lt word),
      )
