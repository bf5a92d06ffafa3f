-- ===== src/Decoder/Patterns.antt =====
-- What the mask and the match of a pattern test: the word's bits against the pattern's characters.
use riscv_em.Base.{
  ℕ, zero, suc, ◌+◌, ◌*◌, ◌/◌, ◌%◌, ◌^◌, ◌<◌, ◌≡◌, ◌∙◌, ◌↔◌, bit_and, bit_or, List, [], ◌∷◌, arith,
}
use riscv_em.Base.Fields.{pow-add}
use riscv_em.Base.Bits.{bit_and_digit, bit_or_digit, bit_and-zero, half_pow}
use riscv_em.Decoder.{Letter, pattern_mask, pattern_match}
use native.Mathlib.Nat.{pow-suc}

-- Each character of the pattern, the last first, agrees with the word's bit: `1`, `0` or anything.
unfoldable pub Agrees : List Letter → ℕ → Type 0
Agrees [] word = Unit
Agrees (Letter.one ∷ cs) word = (word % 2 ≡ 1) × Agrees cs (word / 2)
Agrees (Letter.nil ∷ cs) word = (word % 2 ≡ 0) × Agrees cs (word / 2)
Agrees (Letter.any ∷ cs) word = Agrees cs (word / 2)

-- The two words, digit by digit.
unfoldable fixed_bits : List Letter → ℕ
fixed_bits [] = 0
fixed_bits (Letter.one ∷ cs) = 2 * fixed_bits cs + 1
fixed_bits (Letter.nil ∷ cs) = 2 * fixed_bits cs + 1
fixed_bits (Letter.any ∷ cs) = 2 * fixed_bits cs

unfoldable wanted_bits : List Letter → ℕ
wanted_bits [] = 0
wanted_bits (Letter.one ∷ cs) = 2 * wanted_bits cs + 1
wanted_bits (Letter.nil ∷ cs) = 2 * wanted_bits cs
wanted_bits (Letter.any ∷ cs) = 2 * wanted_bits cs

next_power : (i : ℕ) → 2 ^ (i + 1) ≡ 2 * 2 ^ i
next_power i = grind (arith, pow-add i 1)

twice_next : (i acc : ℕ) → acc < 2 * 2 ^ i → acc < 2 ^ (i + 1)
twice_next i acc h = omega (arith, next_power i)

regroup_odd : (acc f p : ℕ) → acc + p + f * (2 * p) ≡ acc + (2 * f + 1) * p
regroup_odd acc f p = grind arith

regroup_even : (acc f p : ℕ) → acc + f * (2 * p) ≡ acc + (2 * f) * p
regroup_even acc f p = grind arith

-- What one more digit adds.
digit_set : (i acc f : ℕ) → acc + 2 ^ i + f * 2 ^ (i + 1) ≡ acc + (2 * f + 1) * 2 ^ i
digit_set i acc f = rw (next_power i) (regroup_odd acc f (2 ^ i))

digit_clear : (i acc f : ℕ) → acc + f * 2 ^ (i + 1) ≡ acc + (2 * f) * 2 ^ i
digit_clear i acc f = rw (next_power i) (regroup_even acc f (2 ^ i))

bit_or-next : (i acc : ℕ) → acc < 2 ^ i → bit_or acc (2 ^ i) ≡ acc + 2 ^ i
bit_or-next zero zero h = omega arith
bit_or-next zero (suc acc) h = absurd (omega arith)
bit_or-next (suc i) acc h = grind (
  arith,
  half_pow i,
  bit_or_digit acc (2 ^ suc i),
  bit_or-next i (acc / 2) (omega (arith, pow-suc 2 i)),
  pow-suc 2 i,
)

within : (i acc : ℕ) → acc < 2 ^ i → acc + 2 ^ i < 2 ^ (i + 1)
within i acc h = omega (arith, next_power i)

still_within : (i acc : ℕ) → acc < 2 ^ i → acc < 2 ^ (i + 1)
still_within i acc h = omega (arith, next_power i)

pattern_mask-fixed_bits :
    (cs : List Letter) (i acc : ℕ)
    → acc < 2 ^ i
    → pattern_mask cs i acc ≡ acc + fixed_bits cs * 2 ^ i
unfolding pattern_mask fixed_bits
pattern_mask-fixed_bits [] i acc h = omega arith
pattern_mask-fixed_bits (Letter.one ∷ cs) i acc h =
    rw (bit_or-next i acc h) (pattern_mask-fixed_bits cs (i + 1) (acc + 2 ^ i) (within i acc h))
    ∙ digit_set i acc (fixed_bits cs)
pattern_mask-fixed_bits (Letter.nil ∷ cs) i acc h =
    rw (bit_or-next i acc h) (pattern_mask-fixed_bits cs (i + 1) (acc + 2 ^ i) (within i acc h))
    ∙ digit_set i acc (fixed_bits cs)
pattern_mask-fixed_bits (Letter.any ∷ cs) i acc h =
    pattern_mask-fixed_bits cs (i + 1) acc (still_within i acc h)
    ∙ digit_clear i acc (fixed_bits cs)

pattern_match-wanted_bits :
    (cs : List Letter) (i acc : ℕ)
    → acc < 2 ^ i
    → pattern_match cs i acc ≡ acc + wanted_bits cs * 2 ^ i
unfolding pattern_match wanted_bits
pattern_match-wanted_bits [] i acc h = omega arith
pattern_match-wanted_bits (Letter.one ∷ cs) i acc h =
    rw (bit_or-next i acc h) (pattern_match-wanted_bits cs (i + 1) (acc + 2 ^ i) (within i acc h))
    ∙ digit_set i acc (wanted_bits cs)
pattern_match-wanted_bits (Letter.nil ∷ cs) i acc h =
    pattern_match-wanted_bits cs (i + 1) acc (still_within i acc h)
    ∙ digit_clear i acc (wanted_bits cs)
pattern_match-wanted_bits (Letter.any ∷ cs) i acc h =
    pattern_match-wanted_bits cs (i + 1) acc (still_within i acc h)
    ∙ digit_clear i acc (wanted_bits cs)

bit_and-odd : (word m : ℕ) → bit_and word (2 * m + 1) ≡ 2 * bit_and (word / 2) m + word % 2
bit_and-odd word m = grind (arith, bit_and_digit word (2 * m + 1))

bit_and-even : (word m : ℕ) → bit_and word (2 * m) ≡ 2 * bit_and (word / 2) m
bit_and-even word m = grind (arith, bit_and_digit word (2 * m))

digits_agree :
    (cs : List Letter) (word : ℕ) → (bit_and word (fixed_bits cs) ≡ wanted_bits cs) ↔ Agrees cs word
unfolding fixed_bits wanted_bits Agrees
digits_agree [] word = (λ e. tt, λ u. bit_and-zero word)
digits_agree (Letter.one ∷ cs) word =
    ground (arith, bit_and-odd word (fixed_bits cs), digits_agree cs (word / 2))
digits_agree (Letter.nil ∷ cs) word =
    ground (arith, bit_and-odd word (fixed_bits cs), digits_agree cs (word / 2))
digits_agree (Letter.any ∷ cs) word =
    ground (arith, bit_and-even word (fixed_bits cs), digits_agree cs (word / 2))

-- A word matches a pattern's mask and match exactly if each of its bits agrees with the pattern's
-- character at its place.
pub pattern-Agrees :
    (cs : List Letter) (word : ℕ)
    → (bit_and word (pattern_mask cs 0 0) ≡ pattern_match cs 0 0) ↔ Agrees cs word
pattern-Agrees cs word =
    rw
      (pattern_mask-fixed_bits cs 0 0 (omega arith), pattern_match-wanted_bits cs 0 0 (omega arith))
      ground (arith, digits_agree cs word)
