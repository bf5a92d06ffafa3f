-- ===== src/Base/Bits.antt =====
-- Single bits of a number, and what the bitwise operations do to each of them.
use Prim.Native.Nat.{
  ℕ, zero, suc, ◌+◌, ◌-◌, ◌*◌, ◌/◌, ◌%◌, ◌^◌, ◌≤◌, ◌<◌, min, max, digits, bitwise, bit_and, bit_or,
  bit_and-bitwise, bit_or-bitwise,
}
use mathlib.Core.Path.{◌≡◌, refl, sym, ap, subst, ◌∙◌}
use mathlib.Core.Bool.{Bool, true, ◌&&◌}
use native.Mathlib.Nat.{pow-suc, pow-succ', le_refl, div-div-eq-div-mul}
use riscv_em.Base.Tests.{◌==◌, if◌then◌else◌}
use native.Mathlib.Omega.{arith}

-- Bit `k` of `x`, as 0 or 1.
abbrev pub bit : ℕ → ℕ → ℕ
bit zero x = x % 2
bit (suc k) x = bit k (x / 2)

pub bit-lt : (k x : ℕ) → bit k x < 2
bit-lt zero x = omega arith
bit-lt (suc k) x = bit-lt k (x / 2)

pub bit-zero : (k : ℕ) → bit k 0 ≡ 0
bit-zero zero = refl
bit-zero (suc k) = bit-zero k

-- The fuel of the library's digit recursion does not matter once it is enough.
module _ (z : ℕ → ℕ) (f : ℕ → ℕ → ℕ) where
  digits_enough : (a n m b : ℕ) → a ≤ n → a ≤ m → digits z f n a b ≡ digits z f m a b
  digits_enough zero zero zero b low high = refl
  digits_enough zero zero (suc m) b low high = refl
  digits_enough zero (suc n) zero b low high = refl
  digits_enough zero (suc n) (suc m) b low high = refl
  digits_enough (suc a) zero m b low high = elim low [ ]
  digits_enough (suc a) (suc n) zero b low high = elim high [ ]
  digits_enough (suc a) (suc n) (suc m) b low high =
      rw (digits_enough (suc a / 2) n m (b / 2) (omega arith) (omega arith))

  bitwise_digit :
      (x y : ℕ)
      → bitwise z f (suc x) y ≡ bitwise z f (suc x / 2) (y / 2) * 2 + f (suc x % 2) (y % 2)
  bitwise_digit x y =
      let half = suc x / 2 in
      omega (arith, digits_enough half x half (y / 2) (omega arith) (le_refl _))

pub bit_and_digit : (a b : ℕ) → bit_and a b ≡ bit_and (a / 2) (b / 2) * 2 + min (a % 2) (b % 2)
bit_and_digit zero b = simp bit_and-bitwise (omega arith)
bit_and_digit (suc a) b = simp bit_and-bitwise (bitwise_digit (λ y. 0) min a b)

pub bit_or_digit : (a b : ℕ) → bit_or a b ≡ bit_or (a / 2) (b / 2) * 2 + max (a % 2) (b % 2)
bit_or_digit zero b = simp bit_or-bitwise (omega arith)
bit_or_digit (suc a) b = simp bit_or-bitwise (bitwise_digit (λ y. y) max a b)

pub bit_and-half : (a b : ℕ) → bit_and a b / 2 ≡ bit_and (a / 2) (b / 2)
bit_and-half a b = omega (arith, bit_and_digit a b)

pub bit_or-half : (a b : ℕ) → bit_or a b / 2 ≡ bit_or (a / 2) (b / 2)
bit_or-half a b = omega (arith, bit_or_digit a b)

pub bit-bit_and : (k a b : ℕ) → bit k (bit_and a b) ≡ min (bit k a) (bit k b)
bit-bit_and zero a b = omega (arith, bit_and_digit a b)
bit-bit_and (suc k) a b = rw (bit_and-half a b) (bit-bit_and k (a / 2) (b / 2))

pub bit-bit_or : (k a b : ℕ) → bit k (bit_or a b) ≡ max (bit k a) (bit k b)
bit-bit_or zero a b = omega (arith, bit_or_digit a b)
bit-bit_or (suc k) a b = rw (bit_or-half a b) (bit-bit_or k (a / 2) (b / 2))

bit_and-zero_below : (n a : ℕ) → a ≤ n → bit_and a 0 ≡ 0
bit_and-zero_below zero zero h = refl
bit_and-zero_below zero (suc a) h = absurd (omega arith)
bit_and-zero_below (suc n) zero h = refl
bit_and-zero_below (suc n) (suc a) h =
    omega (arith, bit_and_digit (suc a) 0, bit_and-zero_below n (suc a / 2) (omega arith))

pub bit_and-zero : (a : ℕ) → bit_and a 0 ≡ 0
bit_and-zero a = bit_and-zero_below a a (omega arith)

pub bit_or-zero_below : (n a : ℕ) → a ≤ n → bit_or a 0 ≡ a
bit_or-zero_below zero zero h = refl
bit_or-zero_below zero (suc a) h = absurd (omega arith)
bit_or-zero_below (suc n) zero h = refl
bit_or-zero_below (suc n) (suc a) h =
    omega (arith, bit_or_digit (suc a) 0, bit_or-zero_below n (suc a / 2) (omega arith))

-- A mask of one bit.
pub bit_and-two_pow : (k x : ℕ) → bit_and x (2 ^ k) ≡ bit k x * 2 ^ k
bit_and-two_pow zero x = omega (arith, bit_and_digit x 1, bit_and-zero (x / 2))
bit_and-two_pow (suc k) x =
    grind (arith, bit_and_digit x (2 ^ suc k), bit_and-two_pow k (x / 2), pow-suc 2 k)

pub half_pow : (i : ℕ) → 2 ^ suc i / 2 ≡ 2 ^ i
half_pow i = omega (arith, pow-suc 2 i)

halved : (k x : ℕ) → x / 2 / 2 ^ k ≡ x / 2 ^ suc k
halved k x = div-div-eq-div-mul x 2 (2 ^ k) ∙ ap (λ (t : ℕ). x / t) (sym (pow-succ' 2 k))

-- `(x >> k) & 1`, as the source writes it.
pub bit_of_shift : (k x : ℕ) → bit k x ≡ x / 2 ^ k % 2
bit_of_shift zero x = omega arith
bit_of_shift (suc k) x = bit_of_shift k (x / 2) ∙ ap (λ (t : ℕ). t % 2) (halved k x)

complement-half : (n x : ℕ) → x < 2 ^ suc n → (2 ^ suc n - 1 - x) / 2 ≡ 2 ^ n - 1 - x / 2
complement-half n x h = omega (arith, pow-suc 2 n)

-- A complement within `n` bits flips each of them.
pub bit-complement : (n k x : ℕ) → x < 2 ^ n → k < n → bit k (2 ^ n - 1 - x) ≡ 1 - bit k x
bit-complement zero k x hx hk = elim hk [ ]
bit-complement (suc n) zero x hx hk = omega (arith, pow-suc 2 n)
bit-complement (suc n) (suc k) x hx hk =
    rw (complement-half n x hx)
      (bit-complement n k (x / 2) (omega (arith, pow-suc 2 n)) (omega arith))

-- Two numbers with the same bits below `n` agree modulo `2 ^ n`.
pub eq_of_bits : (n a b : ℕ) → a < 2 ^ n → b < 2 ^ n → ((k : ℕ) → k < n → bit k a ≡ bit k b) → a ≡ b
eq_of_bits zero a b ha hb h = omega arith
eq_of_bits (suc n) a b ha hb h =
    let low : a % 2 ≡ b % 2 = h 0 (omega arith) in
    let high : a / 2 ≡ b / 2 =
      eq_of_bits n (a / 2) (b / 2) (omega (arith, pow-suc 2 n)) (omega (arith, pow-suc 2 n))
        (λ k hk. h (suc k) (omega arith)) in
    omega arith

-- A conjunction and a disjunction stay within the width of their operands.
pub bit_or-lt : (n a b : ℕ) → a < 2 ^ n → b < 2 ^ n → bit_or a b < 2 ^ n
bit_or-lt zero zero zero ha hb = omega (arith, bit_or-zero_below 0 0 (omega arith))
bit_or-lt zero zero (suc b) ha hb = absurd (omega arith)
bit_or-lt zero (suc a) b ha hb = absurd (omega arith)
bit_or-lt (suc n) a b ha hb = omega (
  arith,
  bit_or_digit a b,
  bit_or-lt n (a / 2) (b / 2) (omega (arith, pow-suc 2 n)) (omega (arith, pow-suc 2 n)),
  pow-suc 2 n,
)

pub bit_and-lt : (n a b : ℕ) → b < 2 ^ n → bit_and a b < 2 ^ n
bit_and-lt zero a zero h = omega (arith, bit_and-zero a)
bit_and-lt zero a (suc b) h = absurd (omega arith)
bit_and-lt (suc n) a b h = omega (
  arith,
  bit_and_digit a b,
  bit_and-lt n (a / 2) (b / 2) (omega (arith, pow-suc 2 n)),
  pow-suc 2 n,
)

-- The bits of a power of two.
pub bit-two_pow : (k i : ℕ) → bit k (2 ^ i) ≡ (if k == i then 1 else 0)
bit-two_pow zero zero = ground arith
bit-two_pow zero (suc i) = ground (arith, pow-suc 2 i)
bit-two_pow (suc k) zero = bit-zero k ∙ ground arith
bit-two_pow (suc k) (suc i) = rw (half_pow i) (bit-two_pow k i ∙ ground arith)

-- Above the width of a number all bits are clear.
pub bit-above : (n k x : ℕ) → x < 2 ^ n → n ≤ k → bit k x ≡ 0
bit-above zero k x hx hk = subst (λ t. bit k t ≡ 0) (zero_is x hx) (bit-zero k)
  where
    zero_is : (x : ℕ) → x < 2 ^ 0 → 0 ≡ x
    zero_is x h = omega arith
bit-above (suc n) zero x hx hk = absurd (omega arith)
bit-above (suc n) (suc k) x hx hk = bit-above n k (x / 2) (omega (arith, pow-suc 2 n)) (omega arith)

pub bit_and-one : (x : ℕ) → bit_and x 1 ≡ x % 2
bit_and-one x = omega (arith, bit_and_digit x 1, bit_and-zero (x / 2))

pub shift-bit_and-one : (k x : ℕ) → bit_and (x / 2 ^ k) 1 ≡ bit k x
shift-bit_and-one k x = bit_and-one (x / 2 ^ k) ∙ sym (bit_of_shift k x)

-- Over a small range, check every value by evaluation.
unfoldable pub all_below : (ℕ → Bool) → ℕ → Bool
all_below test zero = true
all_below test (suc bound) = all_below test bound && test bound

pub all_below_sound :
    (test : ℕ → Bool) (bound x : ℕ) → x < bound → all_below test bound ≡ true → test x ≡ true
unfolding all_below
all_below_sound test zero x below every = elim below [ ]
all_below_sound test (suc bound) x below every = ground (arith, all_below_sound test bound x)
