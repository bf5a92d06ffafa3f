-- ===== src/Isa/Bitmanip/Logic/Laws.antt =====
-- What the counts of zeros and of ones say about a register.
use riscv_em.Base.{
  ℕ, zero, suc, ◌-◌, ◌/◌, ◌^◌, ◌≤◌, ◌<◌, ◌≡◌, ◌⊎◌, inl, inr, subst, u32, Option, none, some, arith,
  sub64,
}
use riscv_em.Base.Bits.{bit, bit-lt, shift-bit_and-one}
use riscv_em.Hart.{Hart, update}
use riscv_em.Isa.{InstructionData}
use riscv_em.Isa.Bitmanip.Logic.{bit_at, highest_bit, leading_zeros, exec_clz, exec_clzw}
use native.Mathlib.Nat.{pow-suc}

top_bit : (n x : ℕ) → x < 2 ^ suc n → bit n x ≡ 1 → 2 ^ n ≤ x
top_bit zero x h one = omega arith
top_bit (suc n) x h one =
    omega (arith, top_bit n (x / 2) (omega (arith, pow-suc 2 (suc n))) one, pow-suc 2 n)

top_bit_clear : (n x : ℕ) → x < 2 ^ suc n → bit n x ≡ 0 → x < 2 ^ n
top_bit_clear zero x h clear = omega arith
top_bit_clear (suc n) x h clear =
    omega (arith, top_bit_clear n (x / 2) (omega (arith, pow-suc 2 (suc n))) clear, pow-suc 2 n)

-- The position of the highest one of a number that is not zero.
unfoldable Highest : ℕ → ℕ → Option ℕ → Type 0
Highest n x none = x ≡ 0
Highest n x (some c) = (c < n) × (2 ^ c ≤ x) × (x < 2 ^ suc c)

Highest-weaken : (n x : ℕ) (o : Option ℕ) → Highest n x o → Highest (suc n) x o
unfolding Highest
Highest-weaken n x none is_zero = is_zero
Highest-weaken n x (some c) (below, low, high) = (omega arith, low, high)

highest_bit-Highest : (n x : ℕ) → x < 2 ^ n → Highest n x (highest_bit n x)
unfolding Highest highest_bit
highest_bit-Highest zero x h = omega arith
highest_bit-Highest (suc n) x h =
    let one_of : bit_at n x ≡ bit n x = shift-bit_and-one n x in
    let digit : (bit n x ≡ 1) ⊎ (bit n x ≡ 0) = ground (arith, bit-lt n x) in
    elim digit [
      | inl set ↦ rw (one_of, set) (omega arith, top_bit n x h set, h)
      | inr clear ↦
          rw (one_of, clear)
            (Highest-weaken n x (highest_bit n x)
              (highest_bit-Highest n x (top_bit_clear n x h clear)))
    ]

-- The number of zeros above the highest one, of a word of `w` bits.
unfoldable pub LeadingZeros : ℕ → ℕ → ℕ → Type 0
LeadingZeros w x n = ((x ≡ 0) × (n ≡ w)) ⊎ ((n < w) × (2 ^ (w - 1 - n) ≤ x) × (x < 2 ^ (w - n)))

place-LeadingZeros :
    (w x c : ℕ) → c < w → w ≤ 64 → 2 ^ c ≤ x → x < 2 ^ suc c → LeadingZeros w x (sub64 (w - 1) c)
unfolding LeadingZeros
place-LeadingZeros w x c below le low high =
    let n = sub64 (w - 1) c in
    let at : c ≡ w - 1 - n = omega arith in
    let above : suc c ≡ w - n = omega arith in
    inr (omega arith, subst (λ (k : ℕ). 2 ^ k ≤ x) at low, subst (λ (k : ℕ). x < 2 ^ k) above high)

leading-LeadingZeros : (w x : ℕ) → 0 < w → w ≤ 64 → x < 2 ^ w → LeadingZeros w x (leading_zeros w x)
unfolding LeadingZeros
leading-LeadingZeros w x pos le h = counted (highest_bit w x) (highest_bit-Highest w x h)
  where
    counted :
        (o : Option ℕ)
        → Highest w x o
        → LeadingZeros w x (elim o [ some c ↦ sub64 (w - 1) c | none ↦ sub64 (w - 1) (2 ^ 64 - 1) ])
    counted none is_zero = inl (unfold Highest in is_zero, omega arith)
    counted (some c) place =
        let (below, low, high) : (c < w) × (2 ^ c ≤ x) × (x < 2 ^ suc c) =
          unfold Highest in place in
        place-LeadingZeros w x c below le low high

update_self : (i v : ℕ) (f : ℕ → ℕ) → update f i v i ≡ v
update_self i v f = ground arith

-- CLZ and CLZW count the zeros above the highest one of the register and of its low word.
pub exec_clz-LeadingZeros :
    (d : InstructionData) (h : Hart)
    → h.gpr d.rs1 < 2 ^ 64
    → LeadingZeros 64 (h.gpr d.rs1) ((exec_clz d h).1.gpr d.rd)
      × LeadingZeros 32 (u32 (h.gpr d.rs1)) ((exec_clzw d h).1.gpr d.rd)
unfolding exec_clz exec_clzw
exec_clz-LeadingZeros d h word = (
  rw (update_self d.rd (leading_zeros 64 (h.gpr d.rs1)) h.gpr)
      (leading-LeadingZeros 64 (h.gpr d.rs1) (omega arith) (omega arith) word),
  rw (update_self d.rd (leading_zeros 32 (u32 (h.gpr d.rs1))) h.gpr)
      (leading-LeadingZeros 32 (u32 (h.gpr d.rs1)) (omega arith) (omega arith) (omega arith)),
)
