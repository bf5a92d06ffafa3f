-- ===== src/Devices/Plic/Ones.antt =====
-- The bits that are set in a word, in the order in which the `while(active)` loop of
-- `find_highest_pending_enabled` meets them.
use riscv_em.Base.{
  ℕ, zero, suc, ◌-◌, ◌*◌, ◌/◌, ◌%◌, ◌^◌, ◌≤◌, ◌<◌, bit_and, ◌≡◌, refl, ap, subst, ◌∙◌, ◌≢◌, ◌↔◌,
  inl, inr, arith, ◌==◌, if◌then◌else◌, List, [], ◌∷◌, map, In, In-map-suc, In-cons, not-In-map-suc,
  In-cons, not-In-nil,
}
use riscv_em.Base.Bits.{bit, bit-zero, bit_and_digit}
use riscv_em.Devices.Plic.{countr_zero}
use native.Mathlib.Nat.{pow-suc}
use native.Mathlib.Decide.{ℕ_discrete}

-- The loop's positions for a word of `w` bits.
pub ones : ℕ → ℕ → ℕ → List ℕ
ones w zero a = []
ones w (suc fuel) a =
    let rest = countr_zero w a ∷ ones w fuel (bit_and a (a - 1)) in if a == 0 then [] else rest

bit_and_self_below : (n a : ℕ) → a ≤ n → bit_and a a ≡ a
bit_and_self_below zero zero h = refl
bit_and_self_below zero (suc a) h = absurd (omega arith)
bit_and_self_below (suc n) zero h = refl
bit_and_self_below (suc n) (suc a) h =
    omega (arith, bit_and_digit (suc a) (suc a), bit_and_self_below n (suc a / 2) (omega arith))

halves_even : (q : ℕ) → q ≢ 0 → (q * 2 / 2 ≡ q) × ((q * 2 - 1) / 2 ≡ q - 1)
halves_even q h = omega arith

-- Clearing the lowest bit of an even word clears it in the half.
clear_even : (q : ℕ) → q ≢ 0 → bit_and (q * 2) (q * 2 - 1) ≡ bit_and q (q - 1) * 2
clear_even q h =
    bit_and_digit (q * 2) (q * 2 - 1) ∙ rw ((halves_even q h).0, (halves_even q h).1) (omega arith)

half_double : (q : ℕ) → q * 2 / 2 ≡ q
half_double q = omega arith

half_suc : (q : ℕ) → suc (q * 2) / 2 ≡ q
half_suc q = omega arith

-- In an odd word it is bit 0.
clear_odd : (q : ℕ) → bit_and (suc (q * 2)) (q * 2) ≡ q * 2
clear_odd q = omega (
  arith,
  bit_and_digit (suc (q * 2)) (q * 2),
  ap (λ (t : ℕ). bit_and t (q * 2 / 2)) (half_suc q),
  ap (λ (t : ℕ). bit_and q t) (half_double q),
  bit_and_self_below q q (omega arith),
)

pub ones-zero : (w fuel : ℕ) → ones w fuel 0 ≡ []
unfolding ones
ones-zero w zero = refl
ones-zero w (suc fuel) = refl

pub ones-nil : (w a : ℕ) → ones w 0 a ≡ []
unfolding ones
ones-nil w a = refl

pub ones-step :
    (w fuel a : ℕ) → a ≢ 0 → ones w (suc fuel) a ≡ countr_zero w a ∷ ones w fuel (bit_and a (a - 1))
unfolding ones
ones-step w fuel a h = ground arith

countr_zero-even : (w q : ℕ) → countr_zero (suc w) (q * 2) ≡ suc (countr_zero w q)
unfolding countr_zero
countr_zero-even w q = ground (arith, ap (λ (t : ℕ). countr_zero w t) (half_double q))

countr_zero-odd : (w q : ℕ) → countr_zero (suc w) (suc (q * 2)) ≡ 0
unfolding countr_zero
countr_zero-odd w q = ground arith

ones-even : (w fuel q : ℕ) → ones (suc w) fuel (q * 2) ≡ map suc (ones w fuel q)
ones-even w zero q = refl_ones w q
  where
    refl_ones : (w q : ℕ) → ones (suc w) 0 (q * 2) ≡ map suc (ones w 0 q)
    refl_ones w q = unfold ones in refl
ones-even w (suc fuel) q = elim (ℕ_discrete q 0) [
  | yes z ↦ rw (z, ones-zero w (suc fuel)) (ones-zero (suc w) (suc fuel))
  | no nz ↦
      ones-step (suc w) fuel (q * 2) (omega arith)
      ∙ rw (
        countr_zero-even w q,
        clear_even q nz,
        ones-even w fuel (bit_and q (q - 1)),
        ones-step w fuel q nz,
      )
]

ones-odd : (w fuel q : ℕ) → ones (suc w) (suc fuel) (suc (q * 2)) ≡ 0 ∷ map suc (ones w fuel q)
ones-odd w fuel q =
    ones-step (suc w) fuel (suc (q * 2)) (omega arith)
    ∙ rw (countr_zero-odd w q, pred_suc (q * 2), clear_odd q, ones-even w fuel q)
  where
    pred_suc : (n : ℕ) → suc n - 1 ≡ n
    pred_suc n = omega arith

In-double :
    (xs : List ℕ) (q k : ℕ)
    → ((j : ℕ) → In j xs ↔ (bit j q ≡ 1))
    → In k (map suc xs) ↔ (bit k (q * 2) ≡ 1)
In-double xs q zero ih = (λ i. absurd (not-In-map-suc xs i), λ b. absurd (omega arith))
In-double xs q (suc k) ih =
    rw (half_double q)
      (λ i. (ih k).0 ((In-map-suc k xs).0 i), λ b. (In-map-suc k xs).1 ((ih k).1 b))

In-double_suc :
    (xs : List ℕ) (q k : ℕ)
    → ((j : ℕ) → In j xs ↔ (bit j q ≡ 1))
    → In k (0 ∷ map suc xs) ↔ (bit k (suc (q * 2)) ≡ 1)
In-double_suc xs q zero ih = (λ i. omega arith, λ b. (In-cons 0 0 (map suc xs)).1 (inl refl))
In-double_suc xs q (suc k) ih = rw (half_suc q) (
  λ i. elim ((In-cons (suc k) 0 (map suc xs)).0 i) [
    | inl e ↦ absurd (omega arith)
    | inr m ↦ (ih k).0 ((In-map-suc k xs).0 m)
  ],
  λ b. (In-cons (suc k) 0 (map suc xs)).1 (inr ((In-map-suc k xs).1 ((ih k).1 b))),
)

even_halves : (a : ℕ) → a % 2 ≡ 0 → a / 2 * 2 ≡ a
even_halves a h = omega arith

odd_halves : (a : ℕ) → a % 2 ≢ 0 → suc (a / 2 * 2) ≡ a
odd_halves a h = omega arith

-- The loop meets exactly the bits that are set, given as many rounds as the word has bits.
pub In-ones : (w fuel a k : ℕ) → a < 2 ^ w → w ≤ fuel → In k (ones w fuel a) ↔ (bit k a ≡ 1)
In-ones zero fuel a k h e =
    subst (λ t. In k (ones 0 fuel t) ↔ (bit k t ≡ 1)) zero_is_a
      (rw (ones-zero zero fuel, bit-zero k)
        (λ i. absurd (not-In-nil k i), λ b. absurd (omega arith)))
  where
    zero_is_a : 0 ≡ a
    zero_is_a = omega arith
In-ones (suc w) zero a k h e = absurd (omega arith)
In-ones (suc w) (suc fuel) a k h e =
    let small : a / 2 < 2 ^ w = omega (arith, pow-suc 2 w) in
    elim (ℕ_discrete (a % 2) 0) [
      | yes even ↦
          subst (λ t. In k (ones (suc w) (suc fuel) t) ↔ (bit k t ≡ 1)) (even_halves a even)
            (rw (ones-even w (suc fuel) (a / 2)) (
              In-double (ones w (suc fuel) (a / 2)) (a / 2) k
                (λ j. In-ones w (suc fuel) (a / 2) j small (omega arith))))
      | no odd ↦
          subst (λ t. In k (ones (suc w) (suc fuel) t) ↔ (bit k t ≡ 1)) (odd_halves a odd)
            (rw (ones-odd w fuel (a / 2)) (
              In-double_suc (ones w fuel (a / 2)) (a / 2) k
                (λ j. In-ones w fuel (a / 2) j small (omega arith))))
    ]
