-- ===== src/Isa/Muldiv/Laws.antt =====
-- Division with remainder: what the quotient and the remainder instructions give fits together.
use riscv_em.Base.{
  ℕ, ◌+◌, ◌-◌, ◌*◌, ◌/◌, ◌%◌, ◌^◌, ◌≤◌, ◌<◌, ◌≡◌, ◌⊎◌, inl, inr, refl, ap, ◌∙◌, leb, if◌then◌else◌,
  Bool, true, false, not, arith,
}
use native.Mathlib.Nat.{mod-lt, div-add-mod', div-mul-le_self, div-le_self, zero-div}
use native.Mathlib.Decide.{dec_lt}
use riscv_em.Hart.{Hart}
use riscv_em.Isa.{InstructionData, magnitude}
use riscv_em.Isa.Muldiv.{
  signed, opposite, signed_div, signed_rem, div, rem, divu, remu, exec_div, exec_rem, exec_divu,
  exec_remu,
}

-- The sign and the absolute value of a 64-bit pattern in two's complement.
unfoldable pub minus64 : ℕ → Bool
minus64 x = leb 0x8000000000000000 x

unfoldable pub abs64 : ℕ → ℕ
abs64 x = if leb 0x8000000000000000 x then 0x10000000000000000 - x else x

-- The quotient and the remainder of a division that rounds towards zero: by zero all ones and the
-- dividend. Otherwise the absolute values divide with a remainder that is smaller than the divisor; a
-- remainder that is not 0 has the sign of the dividend; a quotient that is not 0 is negative exactly
-- if the signs differ, but for the least number divided by -1, which gives itself.
unfoldable pub Divides : ℕ → ℕ → ℕ → ℕ → Type 0
Divides a b q r =
    ((b ≡ 0) × (q ≡ 0xffffffffffffffff) × (r ≡ a))
    ⊎ ((abs64 q * abs64 b + abs64 r ≡ abs64 a)
        × (abs64 r < abs64 b)
        × ((r ≡ 0) ⊎ (minus64 r ≡ minus64 a))
        × ((q ≡ 0)
            ⊎ (minus64 q ≡ (if minus64 b then not (minus64 a) else minus64 a))
            ⊎ ((a ≡ 0x8000000000000000) × (b ≡ 0xffffffffffffffff))))

-- The same of unsigned numbers.
unfoldable pub DividesUnsigned : ℕ → ℕ → ℕ → ℕ → Type 0
DividesUnsigned a b q r =
    ((b ≡ 0) × (q ≡ 0xffffffffffffffff) × (r ≡ a)) ⊎ ((q * b + r ≡ a) × (r < b))

divu-remu : (a b : ℕ) → DividesUnsigned a b (divu a b) (remu a b)
unfolding divu remu DividesUnsigned
divu-remu a b = ground (arith, div-add-mod' a b, mod-lt a)

signed_parts :
    (minus : Bool) (m : ℕ)
    → m ≤ 0x8000000000000000
    → (abs64 (signed 63 minus m) ≡ m)
      × ((signed 63 minus m ≡ 0)
          ⊎ (minus64 (signed 63 minus m) ≡ minus)
          ⊎ ((m ≡ 0x8000000000000000) × (minus ≡ false)))
unfolding signed abs64 minus64
signed_parts true m small = ground (arith, small)
signed_parts false m small = ground (arith, small)

abs64-le : (x : ℕ) → x < 2 ^ 64 → abs64 x ≤ 0x8000000000000000
unfolding abs64
abs64-le x word = ground (arith, word)

abs64_pos : (x : ℕ) → x < 2 ^ 64 → 0 < x → 0 < abs64 x
unfolding abs64
abs64_pos x word pos = ground (arith, word, pos)

-- A quotient of 2 ^ 63 that is not negative is one of the least number by -1.
greatest_quotient :
    (a b : ℕ)
    → a < 2 ^ 64
    → b < 2 ^ 64
    → 0 < b
    → abs64 a / abs64 b ≡ 0x8000000000000000
    → opposite 63 a b ≡ false
    → (a ≡ 0x8000000000000000) × (b ≡ 0xffffffffffffffff)
unfolding abs64
greatest_quotient a b ha hb pos great same =
    let one : abs64 b ≤ 1 = omega (
      arith,
      abs64-le a ha,
      ap (λ (q : ℕ). q * abs64 b) great,
      div-mul-le_self (abs64 a) (abs64 b),
    ) in
    let whole : 0x8000000000000000 ≤ abs64 a =
      omega (arith, great, div-le_self (abs64 a) (abs64 b)) in
    ground (arith, one, whole, same, ha, hb, pos)

opposite-minus64 : (a b : ℕ) → opposite 63 a b ≡ (if minus64 b then not (minus64 a) else minus64 a)
unfolding minus64
opposite-minus64 a b = ground arith

signs_divide :
    (a b q r : ℕ)
    → a < 2 ^ 64
    → b < 2 ^ 64
    → 0 < b
    → abs64 q ≡ abs64 a / abs64 b
    → (q ≡ 0)
      ⊎ (minus64 q ≡ opposite 63 a b)
      ⊎ ((abs64 a / abs64 b ≡ 0x8000000000000000) × (opposite 63 a b ≡ false))
    → abs64 r ≡ abs64 a % abs64 b
    → (r ≡ 0)
      ⊎ (minus64 r ≡ minus64 a)
      ⊎ ((abs64 a % abs64 b ≡ 0x8000000000000000) × (minus64 a ≡ false))
    → Divides a b q r
unfolding Divides
signs_divide a b q r ha hb pos q_abs q_sign r_abs r_sign =
    let small : abs64 a % abs64 b < abs64 b = mod-lt (abs64 a) (abs64_pos b hb pos) in
    let sign = opposite-minus64 a b in
    inr (
      rw (q_abs, r_abs) (div-add-mod' (abs64 a) (abs64 b)),
      rw r_abs small,
      elim r_sign [
        | inl nothing ↦ inl nothing
        | inr (inl same) ↦ inr same
        | inr (inr (great, plus)) ↦ absurd (omega (arith, great, small, abs64-le b hb))
      ],
      elim q_sign [
        | inl nothing ↦ inl nothing
        | inr (inl right) ↦ inr (inl (right ∙ sign))
        | inr (inr (great, same)) ↦ inr (inr (greatest_quotient a b ha hb pos great same))
      ],
    )

-- The quotient and the remainder of two patterns, the second of which is not 0.
signed_div-signed_rem :
    (a b : ℕ)
    → a < 2 ^ 64
    → b < 2 ^ 64
    → 0 < b
    → Divides a b (signed_div 63 a b) (signed_rem 63 a b)
unfolding signed_div signed_rem
signed_div-signed_rem a b ha hb pos =
    let (q_abs, q_sign) =
      signed_parts (opposite 63 a b) (abs64 a / abs64 b)
        (omega (arith, abs64-le a ha, div-le_self (abs64 a) (abs64 b))) in
    let (r_abs, r_sign) =
      signed_parts (minus64 a) (abs64 a % abs64 b)
        (omega (arith, abs64-le b hb, mod-lt (abs64 a) (abs64_pos b hb pos))) in
    unfold abs64 minus64 in
    signs_divide a b (signed_div 63 a b) (signed_rem 63 a b) ha hb pos q_abs q_sign r_abs r_sign

signed_div_zero : (b : ℕ) → signed_div 63 0 b ≡ 0
unfolding signed_div signed
signed_div_zero b = ground (arith, zero-div (magnitude 63 b))

-- The cases that the code takes apart give what the signed operations give.
div-signed_div : (a b : ℕ) → 0 < b → (div a b ≡ signed_div 63 a b) × (rem a b ≡ signed_rem 63 a b)
unfolding div rem
div-signed_div a b pos =
    let least : signed_div 63 0x8000000000000000 0xffffffffffffffff ≡ 0x8000000000000000 =
      unfold signed_div signed in refl in
    let rest : signed_rem 63 0x8000000000000000 0xffffffffffffffff ≡ 0 =
      unfold signed_rem signed in refl in
    (ground (arith, pos, signed_div_zero b, least), ground (arith, pos, rest))

div-rem : (a b : ℕ) → a < 2 ^ 64 → b < 2 ^ 64 → Divides a b (div a b) (rem a b)
div-rem a b ha hb = elim (dec_lt 0 b) [
  | yes pos ↦
      let (quotient, remainder) = div-signed_div a b pos in
      rw (quotient, remainder) (signed_div-signed_rem a b ha hb pos)
  | no nothing ↦
      let zero_divisor : b ≡ 0 = omega (arith, nothing) in
      rw zero_divisor (unfold Divides div rem in inl (refl, refl, refl))
]

-- On registers that hold 64-bit patterns, DIV and REM divide signed numbers and DIVU and REMU
-- unsigned ones, rounding towards zero: quotient times divisor plus remainder is the dividend, the
-- remainder is smaller than the divisor, and the signs are the ones of `Divides`. By zero the
-- quotient is all ones and the remainder is the dividend.
pub exec_div-exec_rem :
    (d : InstructionData) (h : Hart)
    → h.gpr d.rs1 < 2 ^ 64
    → h.gpr d.rs2 < 2 ^ 64
    → Divides (h.gpr d.rs1) (h.gpr d.rs2) ((exec_div d h).1.gpr d.rd) ((exec_rem d h).1.gpr d.rd)
      × DividesUnsigned
          (h.gpr d.rs1)
          (h.gpr d.rs2)
          ((exec_divu d h).1.gpr d.rd)
          ((exec_remu d h).1.gpr d.rd)
unfolding exec_div exec_rem exec_divu exec_remu
exec_div-exec_rem d h ha hb = (
  ground (arith, div-rem (h.gpr d.rs1) (h.gpr d.rs2) ha hb),
  ground (arith, divu-remu (h.gpr d.rs1) (h.gpr d.rs2)),
)
