-- ===== src/Devices/Plic/Claim/Tests.antt =====
-- A PLIC with two pending sources.
use riscv_em.Base.{
  ℕ, zero, suc, ◌≡◌, refl, ◌≢◌, ◌<◌, ◌↔◌, ◌⊎◌, ◌^◌, false, true, arith, none, some, [], ◌∷◌, get_or,
  if◌then◌else◌, ◌==◌, of_bool,
}
use riscv_em.Devices.Plic.{Plic, Context, highest_in, scan_words, scan_word, consider, countr_zero}
use riscv_em.Devices.Plic.Leads.{Beats}
use riscv_em.Devices.Plic.Select.{Eligible, IsSized, highest_in-best}
use riscv_em.Devices.Plic.Claim.{
  set_pending, claim_interrupt, modify_pending, update_all_contexts, update_from, update_context,
  signal_cpu_interrupt, same,
}
use riscv_em.Devices.Plic.Claim.Pending.{
  pending_bit, set_pending-pending_bit, claim_interrupt-pending_bit, set_pending_overrun,
}
use riscv_em.Devices.Plic.Claim.Lines.{LineFollows, set_pending-LineFollows}

abbrev ctx0 : Context
ctx0 = record {
  threshold = 0;
  enables = 0x28 ∷ 0 ∷ [];
  hart_id = 0;
  supervisor_mode = false;
  interrupt_line = true;
}

-- Sources 3 and 5 are pending, with priorities 1 and 2.
abbrev two : Plic
two = record {
  start = 0x0c000000;
  max_sources = 60;
  num_contexts = 1;
  pending_words_count = 2;
  enable_words_count = 2;
  last_irq_registered = 6;
  priorities = 0 ∷ 0 ∷ 0 ∷ 1 ∷ 0 ∷ 2 ∷ [];
  pending_words = 0x28 ∷ 0 ∷ [];
  contexts = ctx0 ∷ [];
  ips = 0x800 ∷ [];
}

-- As many sources as the emulator gives it.
abbrev full : Plic
full = record two { max_sources = 64 }

small_enables : (w : ℕ) → get_or ctx0.enables w 0 < 2 ^ 32
small_enables zero = omega arith
small_enables (suc zero) = omega arith
small_enables (suc (suc w)) = omega arith

two-IsSized : IsSized two ctx0
two-IsSized = record { words = refl; enables = small_enables }

highest_in-best_example :
    ((highest_in two ctx0 ≡ 0) ↔ ((j : ℕ) → ¬ Eligible two ctx0 j))
    × (highest_in two ctx0 ≢ 0
        → Eligible two ctx0 (highest_in two ctx0)
          × ((j : ℕ) → Eligible two ctx0 j → Beats two ctx0 (highest_in two ctx0) j))
highest_in-best_example = highest_in-best two ctx0 two-IsSized

claim_interrupt-pending_bit_example :
    ((highest_in two ctx0 ≡ 0)
      × (claim_interrupt 0 two ≡ some (0, two))
      × ((j : ℕ) → ¬ Eligible two ctx0 j))
    ⊎ ((q : Plic) × (id : ℕ) × (claim_interrupt 0 two ≡ some (id, q))
        × Eligible two ctx0 id
        × ((j : ℕ) → Eligible two ctx0 j → Beats two ctx0 id j)
        × ((j : ℕ) → pending_bit q j ≡ (if j == id then 0 else pending_bit two j)))
claim_interrupt-pending_bit_example = claim_interrupt-pending_bit 0 ctx0 two refl two-IsSized

set_pending-pending_bit_example :
    (q : Plic) × (set_pending 4 true two ≡ some q)
    × ((j : ℕ) → pending_bit q j ≡ (if j == 4 then of_bool true else pending_bit two j))
    × (q.priorities ≡ two.priorities)
    × (q.max_sources ≡ two.max_sources)
set_pending-pending_bit_example =
    set_pending-pending_bit 4 true two (λ e. cc) (omega arith) (omega arith)

-- Source 4, which is not enabled, is raised too; or source 5 is claimed.
abbrev raised : Plic
raised = record two { pending_words = 0x38 ∷ 0 ∷ [] }

abbrev claimed : Plic
claimed = record two { pending_words = 0x08 ∷ 0 ∷ [] }

raise_4 : set_pending 4 true two ≡ some raised
unfolding set_pending modify_pending update_all_contexts update_from update_context
    signal_cpu_interrupt same highest_in scan_words scan_word consider countr_zero
raise_4 = refl

claim_5 : claim_interrupt 0 two ≡ some (5, claimed)
unfolding claim_interrupt modify_pending update_context signal_cpu_interrupt same highest_in
    scan_words scan_word consider countr_zero
claim_5 = refl

set_pending-LineFollows_example : LineFollows raised 0
set_pending-LineFollows_example =
    set_pending-LineFollows 4 true two raised (λ e. cc) (omega arith) raise_4 0 (omega arith)

set_pending_overrun_example : set_pending 64 true full ≡ none
set_pending_overrun_example = set_pending_overrun true full refl (λ e. cc) refl
