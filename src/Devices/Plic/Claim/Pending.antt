-- ===== src/Devices/Plic/Claim/Pending.antt =====
-- The pending bits under `set_pending`, `claim_interrupt` and `complete_interrupt`.
use riscv_em.Base.{
  ℕ, zero, suc, ◌+◌, ◌/◌, ◌%◌, ◌^◌, ◌≤◌, ◌<◌, bit_and, bit_or, not32, ◌≡◌, ap, ◌∙◌, ◌≢◌, ◌⊎◌, arith,
  of_bool, ◌==◌, if◌then◌else◌, Bool, true, false, none, some, List, length, get_elem?, get_or, set,
  get_or-set, get_elem?-in_range, get_elem?-past, get_or_past, inl, inr,
}
use riscv_em.Base.Bits.{bit, bit-lt, bit-bit_and, bit-bit_or, bit-two_pow, bit-complement, bit-zero}
use native.Mathlib.Nat.{pow-le-pow_right, pow-suc, one-le-pow}
use riscv_em.Devices.Plic.{Plic, Context, highest_in}
use riscv_em.Devices.Plic.Leads.{Beats}
use riscv_em.Devices.Plic.Select.{Eligible, IsSized, highest_in-best}
use native.Mathlib.Decide.{ℕ_discrete, dec_lt}
use riscv_em.Devices.Plic.Claim.{
  signal_cpu_interrupt, update_context, update_from, update_all_contexts, modify_pending,
  set_pending, claim_interrupt,
}

-- The pending bit of a source, as 0 or 1.
abbrev pub pending_bit : Plic → ℕ → ℕ
pending_bit p j = bit (j % 32) (get_or p.pending_words (j / 32) 0)

-- What the lines to the harts do not touch.
pub record SameSources (p q : Plic) : Type 0 where
  pub max : q.max_sources ≡ p.max_sources
  pub number : q.num_contexts ≡ p.num_contexts
  pub priorities : q.priorities ≡ p.priorities
  pub words : q.pending_words ≡ p.pending_words

pub update_context-SameSources : (i : ℕ) (p : Plic) → SameSources p (update_context i p)
unfolding update_context signal_cpu_interrupt
update_context-SameSources i p = ground arith

SameSources-trans : {p q r : Plic} → SameSources p q → SameSources q r → SameSources p r
SameSources-trans a b = ground arith

update_from-SameSources : (n i : ℕ) (p : Plic) → SameSources p (update_from n i p)
unfolding update_from
update_from-SameSources zero i p = ground arith
update_from-SameSources (suc n) i p =
    SameSources-trans (update_context-SameSources i p)
      (update_from-SameSources n (i + 1) (update_context i p))

two_pow_lt : (k : ℕ) → k < 32 → 2 ^ k < 2 ^ 32
two_pow_lt k h =
    let bound : 2 ^ suc k ≤ 2 ^ 32 =
      pow-le-pow_right {n = 2} (omega arith) {i = suc k} {j = 32} h in
    omega (arith, pow-suc 2 k, one-le-pow k 2)

bit-raise : (k i w : ℕ) → bit k (bit_or w (2 ^ i)) ≡ (if k == i then 1 else bit k w)
bit-raise k i w = ground (arith, bit-bit_or k w (2 ^ i), bit-two_pow k i, bit-lt k w)

bit-clear :
    (k i w : ℕ)
    → k < 32
    → i < 32
    → bit k (bit_and w (not32 (2 ^ i))) ≡ (if k == i then 0 else bit k w)
bit-clear k i w hk hi = ground (
  arith,
  bit-bit_and k w (not32 (2 ^ i)),
  bit-complement 32 k (2 ^ i) (two_pow_lt i hi) hk,
  bit-two_pow k i,
  bit-lt k w,
)

-- A word of `pending_words` is replaced, in range; past the end nothing happens but the fault.
modify_pending-in_range :
    (i : ℕ) (f : ℕ → ℕ) (p : Plic)
    → i < length p.pending_words
    → modify_pending i f p
      ≡ some (record p { pending_words = set p.pending_words i (f (get_or p.pending_words i 0)) })
unfolding modify_pending
modify_pending-in_range i f p h = rw (get_elem?-in_range p.pending_words i 0 h, modify_pending)

-- Two sources with the same word and the same position are one.
same_source : (i j : ℕ) → j / 32 ≡ i / 32 → j % 32 ≡ i % 32 → j ≡ i
same_source i j a b = omega arith

raised :
    (id j : ℕ) (p : Plic)
    → id / 32 < length p.pending_words
    → let ws = p.pending_words in
      bit
        (j % 32)
        (get_or (set ws (id / 32) (bit_or (get_or ws (id / 32) 0) (2 ^ (id % 32)))) (j / 32) 0)
      ≡ (if j == id then 1 else pending_bit p j)
raised id j p h = ground (
  arith,
  get_or-set p.pending_words (id / 32) (j / 32)
      (bit_or (get_or p.pending_words (id / 32) 0) (2 ^ (id % 32))) 0 h,
  bit-raise (j % 32) (id % 32) (get_or p.pending_words (id / 32) 0),
  same_source id j,
)

cleared :
    (id j : ℕ) (p : Plic)
    → id / 32 < length p.pending_words
    → let ws = p.pending_words in
      bit (j % 32) (
        get_or
          (set ws (id / 32) (bit_and (get_or ws (id / 32) 0) (not32 (2 ^ (id % 32)))))
          (j / 32)
          0)
      ≡ (if j == id then 0 else pending_bit p j)
cleared id j p h = ground (
  arith,
  get_or-set p.pending_words (id / 32) (j / 32)
      (bit_and (get_or p.pending_words (id / 32) 0) (not32 (2 ^ (id % 32)))) 0 h,
  bit-clear (j % 32) (id % 32) (get_or p.pending_words (id / 32) 0) (omega arith) (omega arith),
  same_source id j,
)

-- The new value of the word of source `id`.
abbrev pub new_word : ℕ → Bool → ℕ → ℕ
new_word id v w = if v then bit_or w (2 ^ (id % 32)) else bit_and w (not32 (2 ^ (id % 32)))

abbrev with_bit : ℕ → Bool → Plic → Plic
with_bit id v p = record p {
  pending_words =
      set p.pending_words (id / 32) (new_word id v (get_or p.pending_words (id / 32) 0));
}

with_bit-pending_bit :
    (id : ℕ) (v : Bool) (j : ℕ) (p : Plic)
    → id / 32 < length p.pending_words
    → pending_bit (with_bit id v p) j ≡ (if j == id then of_bool v else pending_bit p j)
with_bit-pending_bit id true j p h = raised id j p h
with_bit-pending_bit id false j p h = cleared id j p h

set_pending-runs :
    (id : ℕ) (v : Bool) (p : Plic)
    → id ≢ 0
    → id ≤ p.max_sources
    → id / 32 < length p.pending_words
    → set_pending id v p ≡ some (update_all_contexts (with_bit id v p))
unfolding set_pending
set_pending-runs id v p nz known h =
    ground (arith, modify_pending-in_range (id / 32) (new_word id v) p h)

update_all-SameSources : (p : Plic) → SameSources p (update_all_contexts p)
unfolding update_all_contexts
update_all-SameSources p = update_from-SameSources p.num_contexts 0 p

SameSources-pending_bit :
    {p q : Plic} → SameSources p q → (j : ℕ) → pending_bit q j ≡ pending_bit p j
SameSources-pending_bit s j = ap (λ (ws : List ℕ). bit (j % 32) (get_or ws (j / 32) 0)) s.words

-- `set_pending` on a source that the words have room for sets its pending bit to the value asked
-- for, and leaves every other pending bit, all priorities and the source count as they were.
pub set_pending-pending_bit :
    (id : ℕ) (v : Bool) (p : Plic)
    → id ≢ 0
    → id ≤ p.max_sources
    → id / 32 < length p.pending_words
    → (q : Plic) × (set_pending id v p ≡ some q)
      × ((j : ℕ) → pending_bit q j ≡ (if j == id then of_bool v else pending_bit p j))
      × (q.priorities ≡ p.priorities)
      × (q.max_sources ≡ p.max_sources)
set_pending-pending_bit id v p nz known h =
    let same = update_all-SameSources (with_bit id v p) in
    (
      update_all_contexts (with_bit id v p),
      set_pending-runs id v p nz known h,
      λ j. SameSources-pending_bit same j ∙ with_bit-pending_bit id v j p h,
      same.priorities,
      same.max,
    )

-- Where the number of sources is a positive multiple of 32, the last source has no word: raising
-- or clearing it runs past the end of `pending_words`.
pub set_pending_overrun :
    (v : Bool) (p : Plic)
    → p.max_sources % 32 ≡ 0
    → p.max_sources ≢ 0
    → length p.pending_words ≡ (p.max_sources + 31) / 32
    → set_pending p.max_sources v p ≡ none
unfolding set_pending modify_pending
set_pending_overrun v p m nz l =
    ground (arith, get_elem?-past p.pending_words (p.max_sources / 32) (omega arith))

Eligible-in_range :
    (p : Plic) (ctx : Context) (id : ℕ) → Eligible p ctx id → id / 32 < length p.pending_words
Eligible-in_range p ctx id el = elim (dec_lt (id / 32) (length p.pending_words)) [
  | yes h ↦ h
  | no h ↦ absurd (
      omega (
        arith,
        el.pending,
        ap (λ (t : ℕ). bit (id % 32) t) (get_or_past p.pending_words (id / 32) 0 (omega arith)),
        bit-zero (id % 32),
      ))
]

claim-empty :
    (i : ℕ) (ctx : Context) (p : Plic)
    → get_elem? p.contexts i ≡ some ctx
    → highest_in p ctx ≡ 0
    → claim_interrupt i p ≡ some (0, p)
unfolding claim_interrupt
claim-empty i ctx p e z = ground arith

claim-found :
    (i : ℕ) (ctx : Context) (p : Plic)
    → get_elem? p.contexts i ≡ some ctx
    → highest_in p ctx ≢ 0
    → highest_in p ctx / 32 < length p.pending_words
    → claim_interrupt i p
      ≡ some (highest_in p ctx, update_context i (with_bit (highest_in p ctx) false p))
unfolding claim_interrupt
claim-found i ctx p e nz h =
    ground (
      arith,
      modify_pending-in_range (highest_in p ctx / 32) (new_word (highest_in p ctx) false) p h,
    )

-- A claim returns 0 and changes nothing if no source is eligible for the context. Otherwise it
-- returns the best eligible source with its pending bit cleared, and every other pending bit
-- stays.
pub claim_interrupt-pending_bit :
    (i : ℕ) (ctx : Context) (p : Plic)
    → get_elem? p.contexts i ≡ some ctx
    → IsSized p ctx
    → ((highest_in p ctx ≡ 0)
        × (claim_interrupt i p ≡ some (0, p))
        × ((j : ℕ) → ¬ Eligible p ctx j))
      ⊎ ((q : Plic) × (id : ℕ) × (claim_interrupt i p ≡ some (id, q))
          × Eligible p ctx id
          × ((j : ℕ) → Eligible p ctx j → Beats p ctx id j)
          × ((j : ℕ) → pending_bit q j ≡ (if j == id then 0 else pending_bit p j)))
claim_interrupt-pending_bit i ctx p e z = elim (ℕ_discrete (highest_in p ctx) 0) [
  | yes none_left ↦
      inl (none_left, claim-empty i ctx p e none_left, (highest_in-best p ctx z).0.0 none_left)
  | no nz ↦
      let (el, best) = (highest_in-best p ctx z).1 nz in
      let h = Eligible-in_range p ctx (highest_in p ctx) el in
      let q = with_bit (highest_in p ctx) false p in
      inr (
        update_context i q,
        highest_in p ctx,
        claim-found i ctx p e nz h,
        el,
        best,
        λ j.
            SameSources-pending_bit (update_context-SameSources i q) j
            ∙ with_bit-pending_bit (highest_in p ctx) false j p h,
      )
]
