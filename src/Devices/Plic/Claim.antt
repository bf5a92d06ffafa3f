-- ===== src/Devices/Plic/Claim.antt =====
-- src/devices/plic.cpp: raising and clearing interrupts, and the lines to the harts.
pub mod Pending
pub mod Lines
mod Tests
use riscv_em.Base.{
  ℕ, zero, suc, ◌+◌, ◌-◌, ◌/◌, ◌%◌, ◌^◌, bit_and, bit_or, not32, of_bool, ltb, leb, ◌==◌,
  if◌then◌else◌, Bool, true, false, not, ◌&&◌, ◌||◌, Option, none, some, List, length, get_elem?,
  get_or, set,
}
use riscv_em.Hart.Csr.{set_ip_seip, set_ip_meip}
use riscv_em.Devices.Plic.{Plic, Context, highest_in}

-- The hart's `ip` word gets bit SEIP or MEIP. `hart_id` is never negative here.
pub signal_cpu_interrupt : ℕ → Bool → Bool → Plic → Plic
signal_cpu_interrupt hart_id supervisor_mode level p =
    if leb 64 hart_id
    then p
    else let ip = get_or p.ips hart_id 0 in
      record p {
        ips = set p.ips hart_id (
            if supervisor_mode
            then set_ip_seip (of_bool level) ip
            else set_ip_meip (of_bool level) ip);
      }

pub same : Bool → Bool → Bool
same true b = b
same false b = not b

-- Every caller has checked `ctx_idx` against `num_contexts`, the length of `contexts`.
pub update_context : ℕ → Plic → Plic
update_context ctx_idx p = elim (get_elem? p.contexts ctx_idx) [
  | none ↦ p
  | some ctx ↦
      let should_raise = not (highest_in p ctx == 0) in
      if same should_raise ctx.interrupt_line
      then p
      else signal_cpu_interrupt ctx.hart_id ctx.supervisor_mode should_raise (record p {
        contexts = set p.contexts ctx_idx (record ctx { interrupt_line = should_raise });
      })
]

-- The loop from context `i` on, with `n` rounds left.
pub update_from : ℕ → ℕ → Plic → Plic
update_from zero i p = p
update_from (suc n) i p = update_from n (i + 1) (update_context i p)

pub update_all_contexts : Plic → Plic
update_all_contexts p = update_from p.num_contexts 0 p

-- `pending_words[word] = f(pending_words[word])`; `none` is an access past the end.
pub modify_pending : ℕ → (ℕ → ℕ) → Plic → Option Plic
modify_pending word f p = elim (get_elem? p.pending_words word) [
  | none ↦ none
  | some w ↦ some (record p { pending_words = set p.pending_words word (f w) })
]

pub set_pending : ℕ → Bool → Plic → Option Plic
set_pending source_id pending p =
    if (source_id == 0) || ltb p.max_sources source_id
    then some p
    else let bit_mask = 2 ^ (source_id % 32) in
      elim (modify_pending (source_id / 32)
        (λ w. if pending then bit_or w bit_mask else bit_and w (not32 bit_mask)) p) [
          | none ↦ none
          | some p' ↦ some (update_all_contexts p')
        ]

-- The id that a claim by context `ctx_idx` gets, and the state after it.
pub claim_interrupt : ℕ → Plic → Option (ℕ × Plic)
claim_interrupt ctx_idx p = elim (get_elem? p.contexts ctx_idx) [
  | none ↦ none
  | some ctx ↦
      let id = highest_in p ctx in
      if id == 0
      then some (0, p)
      else elim (modify_pending (id / 32) (λ w. bit_and w (not32 (2 ^ (id % 32)))) p) [
        | none ↦ none
        | some p' ↦ some (id, update_context ctx_idx p')
      ]
]

pub complete_interrupt : ℕ → ℕ → Plic → Option Plic
complete_interrupt ctx_idx id p =
    if (id == 0) || ltb p.max_sources id
    then some p
    else elim (modify_pending (id / 32) (λ w. bit_and w (not32 (2 ^ (id % 32)))) p) [
      | none ↦ none
      | some p' ↦ some (update_context ctx_idx p')
    ]
