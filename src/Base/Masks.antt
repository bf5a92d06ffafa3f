-- ===== src/Base/Masks.antt =====
-- Conjunctions with masks and disjunctions of words with no bit in common, as arithmetic. A word is
-- written as `q * 2 ^ n + r`: the bits from `n` on, and those below.
use Prim.Native.Nat.{ℕ, zero, suc, ◌+◌, ◌-◌, ◌*◌, ◌/◌, ◌^◌, ◌≤◌, ◌<◌, bit_and, bit_or}
use mathlib.Core.Path.{◌≡◌, refl, ◌∙◌}
use native.Mathlib.Omega.{arith}
use native.Mathlib.Nat.{pow-suc}
use riscv_em.Base.Bits.{bit_and_digit, bit_or_digit, bit_and-zero, bit_or-zero_below}
use riscv_em.Base.Fields.{two_pow_pos}

shifted : (n q : ℕ) → q * 2 ^ suc n ≡ 2 * (q * 2 ^ n)
shifted n q = grind (arith, pow-suc 2 n)

-- A mask of the low bits.
pub bit_and-low : (n q r : ℕ) → r < 2 ^ n → bit_and (q * 2 ^ n + r) (2 ^ n - 1) ≡ r
bit_and-low zero q r small = omega (arith, bit_and-zero (q * 1 + r))
bit_and-low (suc n) q r small =
    let x = q * 2 ^ suc n + r in
    let half : x / 2 ≡ q * 2 ^ n + r / 2 = omega (arith, shifted n q) in
    let mask : (2 ^ suc n - 1) / 2 ≡ 2 ^ n - 1 = omega (arith, pow-suc 2 n, two_pow_pos n) in
    let rest : bit_and (x / 2) ((2 ^ suc n - 1) / 2) ≡ r / 2 =
      rw (half, mask) (bit_and-low n q (r / 2) (omega (arith, pow-suc 2 n))) in
    omega (arith, bit_and_digit x (2 ^ suc n - 1), rest, shifted n q, pow-suc 2 n, two_pow_pos n)

-- A mask that leaves the low bits out.
pub bit_and-high :
    (n q r m : ℕ) → r < 2 ^ n → bit_and (q * 2 ^ n + r) (m * 2 ^ n) ≡ bit_and q m * 2 ^ n
bit_and-high zero q r m small =
    let x : q * 2 ^ 0 + r ≡ q = omega arith in
    let y : m * 2 ^ 0 ≡ m = omega arith in rw (x, y) (omega arith)
bit_and-high (suc n) q r m small =
    let x = q * 2 ^ suc n + r in
    let half : x / 2 ≡ q * 2 ^ n + r / 2 = omega (arith, shifted n q) in
    let mask : m * 2 ^ suc n / 2 ≡ m * 2 ^ n = omega (arith, shifted n m) in
    let rest : bit_and (x / 2) (m * 2 ^ suc n / 2) ≡ bit_and q m * 2 ^ n =
      rw (half, mask) (bit_and-high n q (r / 2) m (omega (arith, pow-suc 2 n))) in
    omega (
      arith,
      bit_and_digit x (m * 2 ^ suc n),
      rest,
      shifted n q,
      shifted n m,
      shifted n (bit_and q m),
    )

-- High bits and low bits together.
pub bit_or-join : (n q r : ℕ) → r < 2 ^ n → bit_or (q * 2 ^ n) r ≡ q * 2 ^ n + r
bit_or-join zero q r small =
    let none_low : r ≡ 0 = omega arith in
    rw none_low (bit_or-zero_below (q * 1) (q * 1) (omega arith) ∙ omega arith)
bit_or-join (suc n) q r small =
    let half : q * 2 ^ suc n / 2 ≡ q * 2 ^ n = omega (arith, shifted n q) in
    let rest : bit_or (q * 2 ^ suc n / 2) (r / 2) ≡ q * 2 ^ n + r / 2 =
      rw half (bit_or-join n q (r / 2) (omega (arith, pow-suc 2 n))) in
    omega (arith, bit_or_digit (q * 2 ^ suc n) r, rest, shifted n q)

zero-bit_or_below : (n a : ℕ) → a ≤ n → bit_or 0 a ≡ a
zero-bit_or_below n zero h = refl
zero-bit_or_below zero (suc a) h = absurd (omega arith)
zero-bit_or_below (suc n) (suc a) h =
    omega (arith, bit_or_digit 0 (suc a), zero-bit_or_below n (suc a / 2) (omega arith))

-- The same, the low bits first.
pub bit_or-join_low : (n q r : ℕ) → r < 2 ^ n → bit_or r (q * 2 ^ n) ≡ q * 2 ^ n + r
bit_or-join_low zero q zero small = zero-bit_or_below (q * 1) (q * 1) (omega arith) ∙ omega arith
bit_or-join_low zero q (suc r) small = absurd (omega arith)
bit_or-join_low (suc n) q r small =
    let half : q * 2 ^ suc n / 2 ≡ q * 2 ^ n = omega (arith, shifted n q) in
    let rest : bit_or (r / 2) (q * 2 ^ suc n / 2) ≡ q * 2 ^ n + r / 2 =
      rw half (bit_or-join_low n q (r / 2) (omega (arith, pow-suc 2 n))) in
    omega (arith, bit_or_digit r (q * 2 ^ suc n), rest, shifted n q)
