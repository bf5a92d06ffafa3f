-- ===== src/Devices/Plic.antt =====
-- src/devices/plic.cpp: the platform-level interrupt controller. A hart is seen through its `ip`
-- word, which `signal_cpu_interrupt` sets. `none` is an access past the end of a vector.
pub mod Ones
pub mod Leads
pub mod Select
pub mod Claim
pub mod Bus
use riscv_em.Base.{
  ℕ, zero, suc, ◌+◌, ◌-◌, ◌*◌, ◌/◌, ◌%◌, ◌^◌, bit_and, bit_or, u32, not32, of_bool, ltb, leb, ◌==◌,
  if◌then◌else◌, Bool, true, false, not, ◌&&◌, ◌||◌, Option, none, some, List, [], ◌∷◌, length,
  get_elem?, get_or, set, replicate,
}
use riscv_em.Hart.Csr.{set_ip_seip, set_ip_meip}

pub record Context : Type 0 where
  pub threshold : ℕ
  pub enables : List ℕ
  pub hart_id : ℕ
  pub supervisor_mode : Bool
  pub interrupt_line : Bool

pub record Plic : Type 0 where
  pub start : ℕ
  pub max_sources : ℕ
  pub num_contexts : ℕ
  pub pending_words_count : ℕ
  pub enable_words_count : ℕ
  pub last_irq_registered : ℕ
  pub priorities : List ℕ
  pub pending_words : List ℕ
  pub contexts : List Context
  pub ips : List ℕ

-- The contexts from index `i` on: machine and supervisor mode of each hart in turn.
pub init_contexts : ℕ → ℕ → ℕ → List Context
init_contexts zero i words = []
init_contexts (suc n) i words =
    record {
      threshold = 0;
      enables = replicate words 0;
      hart_id = i / 2;
      supervisor_mode = i % 2 == 1;
      interrupt_line = false;
    }
    ∷ init_contexts n (i + 1) words

pub init : ℕ → ℕ → ℕ → List ℕ → Plic
init start harts_count max_sources ips =
    let words = (max_sources + 31) / 32 in
    record {
      start = start;
      max_sources = max_sources;
      num_contexts = harts_count * 2;
      pending_words_count = words;
      enable_words_count = words;
      last_irq_registered = 1;
      priorities = replicate (max_sources + 1) 0;
      pending_words = replicate words 0;
      contexts = init_contexts (harts_count * 2) 0 words;
      ips = ips;
    }

-- A fresh interrupt number, and the state that has handed it out.
pub acquire_irq : Plic → ℕ × Plic
acquire_irq p =
    (p.last_irq_registered, record p { last_irq_registered = u32 (p.last_irq_registered + 1) })

-- `std::countr_zero` on a word of `w` bits.
pub countr_zero : ℕ → ℕ → ℕ
countr_zero zero x = 0
countr_zero (suc w) x = if x % 2 == 1 then 0 else suc (countr_zero w (x / 2))

-- The best source so far, `best_id` and `best_priority`.
pub record Best : Type 0 where
  pub id : ℕ
  pub priority : ℕ

-- The loop body, for source `id`.
pub consider : Plic → Context → ℕ → Best → Best
consider p ctx id b =
    let prio = get_or p.priorities id 0 in
    if not (id == 0) && leb id p.max_sources
    then if ltb ctx.threshold prio
      then if ltb b.priority prio || ((prio == b.priority) && ltb id b.id)
        then record { id = id; priority = prio }
        else b
      else b
    else b

-- `while(active)`: one round for each bit that is set, from the lowest on.
pub scan_word : ℕ → Plic → Context → ℕ → ℕ → Best → Best
scan_word zero p ctx word active b = b
scan_word (suc fuel) p ctx word active b =
    let rest =
      scan_word fuel p ctx word (bit_and active (active - 1))
        (consider p ctx (word * 32 + countr_zero 32 active) b) in
    if active == 0 then b else rest

-- The loop over the words, with `n` words left from `word` on. A word has at most 32 bits.
pub scan_words : ℕ → Plic → Context → ℕ → Best → Best
scan_words zero p ctx word b = b
scan_words (suc n) p ctx word b = scan_words n p ctx (word + 1) (
    scan_word 32 p ctx word (bit_and (get_or p.pending_words word 0) (get_or ctx.enables word 0)) b)

pub highest_in : Plic → Context → ℕ
highest_in p ctx =
    (scan_words ((p.max_sources + 31) / 32) p ctx 0 (record { id = 0; priority = 0 })).id

pub find_highest_pending_enabled : Plic → ℕ → Option ℕ
find_highest_pending_enabled p ctx_idx = elim (get_elem? p.contexts ctx_idx) [
  | none ↦ none
  | some ctx ↦ some (highest_in p ctx)
]
