-- ===== src/Isa/Floats/Order.antt =====
-- The order of floating-point numbers, NaN aside: it is the order of a key, the distance above or
-- below the pattern of the sign bit.
use riscv_em.Base.{
  ℕ, ◌+◌, ◌-◌, ◌*◌, ◌/◌, ◌%◌, ◌^◌, ◌≤◌, ◌<◌, ◌≡◌, ◌⊎◌, inl, inr, sym, ap, ◌∙◌, bit_and, ltb, leb,
  ◌==◌, if◌then◌else◌, Bool, true, false, Bool-cases, ◌&&◌, ◌||◌, not, arith,
}
use native.Mathlib.Nat.{mod-lt, div-add-mod'}
use riscv_em.Base.Fields.{two_pow_pos}
use riscv_em.Base.Masks.{bit_and-low, bit_and-high}
use riscv_em.Isa.Floats.{
  Format, sign_mask, exponent_mask, fraction_mask, signbit, unsigned_part, isnan, issnan, is_zero,
  isless, is_equal, minimum, maximum, fpclassify, class_mask, classify,
}

unfoldable pub key : Format → ℕ → ℕ
key f x = if signbit f x then sign_mask f - unsigned_part f x else sign_mask f + unsigned_part f x

sign_mask_pos : (f : Format) → 0 < sign_mask f
unfolding sign_mask
sign_mask_pos Format.single = omega arith
sign_mask_pos Format.double = omega arith

pub unsigned_part-lt : (f : Format) (x : ℕ) → unsigned_part f x < sign_mask f
unfolding unsigned_part
unsigned_part-lt f x = mod-lt x (sign_mask_pos f)

less_key :
    (s t : Bool) (b m n : ℕ)
    → m < b
    → n < b
    → (if s
        then if t then ltb n m else not ((m == 0) && (n == 0))
        else if t
        then false
        else ltb m n)
      ≡ ltb (if s then b - m else b + m) (if t then b - n else b + n)
less_key true true b m n hm hn = ground arith
less_key true false b m n hm hn = ground arith
less_key false true b m n hm hn = ground arith
less_key false false b m n hm hn = ground arith

pub isless-key :
    (f : Format) (x y : ℕ)
    → isnan f x ≡ false
    → isnan f y ≡ false
    → isless f x y ≡ ltb (key f x) (key f y)
unfolding isless is_zero key
isless-key f x y real real' =
    rw (real, real')
      (less_key (signbit f x) (signbit f y) (sign_mask f) (unsigned_part f x) (unsigned_part f y)
        (unsigned_part-lt f x) (unsigned_part-lt f y))

-- A word is its sign and the rest.
pub word_parts :
    (f : Format) (x : ℕ)
    → x < 2 * sign_mask f
    → x ≡ (if signbit f x then sign_mask f + unsigned_part f x else unsigned_part f x)
unfolding signbit unsigned_part sign_mask
word_parts Format.single x word = ground arith
word_parts Format.double x word = ground arith

equal_key :
    (s t : Bool) (b m n : ℕ)
    → m < b
    → n < b
    → (((m == 0) && (n == 0)) || ((if s then b + m else m) == (if t then b + n else n)))
      ≡ ((if s then b - m else b + m) == (if t then b - n else b + n))
equal_key true true b m n hm hn = ground arith
equal_key true false b m n hm hn = ground arith
equal_key false true b m n hm hn = ground arith
equal_key false false b m n hm hn = ground arith

pub is_equal-key :
    (f : Format) (x y : ℕ)
    → isnan f x ≡ false
    → isnan f y ≡ false
    → x < 2 * sign_mask f
    → y < 2 * sign_mask f
    → is_equal f x y ≡ (key f x == key f y)
unfolding is_equal is_zero key
is_equal-key f x y real real' word word' =
    rw (real, real')
      (ap (λ (e : Bool). (((unsigned_part f x == 0) && (unsigned_part f y == 0)) || e))
          (ap (λ (a : ℕ). a == y) (word_parts f x word)
            ∙ ap
                (λ (b : ℕ).
                  (if signbit f x then sign_mask f + unsigned_part f x else unsigned_part f x) == b)
                (word_parts f y word'))
        ∙ equal_key (signbit f x) (signbit f y) (sign_mask f) (unsigned_part f x)
            (unsigned_part f y) (unsigned_part-lt f x) (unsigned_part-lt f y))

-- Of two numbers exactly one of less, equal and greater holds.
pub isless-trichotomy :
    (f : Format) (x y : ℕ)
    → isnan f x ≡ false
    → isnan f y ≡ false
    → x < 2 * sign_mask f
    → y < 2 * sign_mask f
    → (if isless f x y then 1 else 0)
        + (if is_equal f x y then 1 else 0)
        + (if isless f y x then 1 else 0)
      ≡ 1
isless-trichotomy f x y real real' word word' =
    rw
      (
        isless-key f x y real real',
        isless-key f y x real' real,
        is_equal-key f x y real real' word word',
      )
      (ground arith)

equal_pattern :
    (f : Format) (x y : ℕ)
    → isnan f x ≡ false
    → isnan f y ≡ false
    → (is_zero f x && is_zero f y) ≡ false
    → is_equal f x y ≡ true
    → (x == y) ≡ true
unfolding is_equal
equal_pattern f x y real real' nonzero same = ground (arith, real, real', nonzero, same)

-- Equal numbers that are not both zero have the same pattern.
equal-same :
    (f : Format) (x y : ℕ)
    → isnan f x ≡ false
    → isnan f y ≡ false
    → isless f x y ≡ false
    → isless f y x ≡ false
    → (is_zero f x && is_zero f y) ≡ false
    → x < 2 * sign_mask f
    → y < 2 * sign_mask f
    → x ≡ y
equal-same f x y real real' le ge nonzero word word' =
    let same : is_equal f x y ≡ true =
      ground (arith, isless-trichotomy f x y real real' word word', le, ge) in
    ground (arith, equal_pattern f x y real real' nonzero same)

zeros-isless :
    (f : Format) (x y : ℕ)
    → (is_zero f x && is_zero f y) ≡ true
    → (isless f x y ≡ false) × (isless f y x ≡ false)
unfolding isless is_zero
zeros-isless f x y zeros = (ground (arith, zeros), ground (arith, zeros))

-- FMIN and FMAX put two numbers in order.
pub minimum-maximum :
    (f : Format) (x y : ℕ)
    → isnan f x ≡ false
    → isnan f y ≡ false
    → x < 2 * sign_mask f
    → y < 2 * sign_mask f
    → (isless f (maximum f x y) (minimum f x y) ≡ false)
      × (((minimum f x y ≡ x) × (maximum f x y ≡ y)) ⊎ ((minimum f x y ≡ y) × (maximum f x y ≡ x)))
unfolding minimum maximum
minimum-maximum f x y real real' word word' =
    rw (real, real')
      (elim (Bool-cases (is_zero f x && is_zero f y)) [
        | inl zeros ↦
            let (less, more) = zeros-isless f x y zeros in ground (arith, zeros, less, more)
        | inr nonzero ↦ ground (
          arith,
          nonzero,
          equal-same f x y real real',
          isless-trichotomy f x y real real' word word',
        )
      ])

-- The class of a number that is no NaN, from its sign and the rest.
class_of : Bool → ℕ → ℕ → ℕ → ℕ
class_of sign m fraction exponent =
    if m == 0
    then if sign then 8 else 16
    else if leb m fraction
    then if sign then 4 else 32
    else if ltb m exponent
    then if sign then 2 else 64
    else if sign
    then 1
    else 128

classify-class_of :
    (f : Format) (x : ℕ)
    → isnan f x ≡ false
    → classify f x ≡ class_of (signbit f x) (unsigned_part f x) (fraction_mask f) (exponent_mask f)
unfolding classify class_mask fpclassify isnan class_of
classify-class_of f x real = ground (arith, real)

class_of-less :
    (s t : Bool) (b m n fraction exponent : ℕ)
    → fraction < exponent
    → m < b
    → n < b
    → ltb (if s then b - m else b + m) (if t then b - n else b + n) ≡ true
    → class_of s m fraction exponent ≤ class_of t n fraction exponent
unfolding class_of
class_of-less true true b m n fraction exponent h hm hn less = ground (arith, h, less)
class_of-less true false b m n fraction exponent h hm hn less = ground (arith, h, less)
class_of-less false true b m n fraction exponent h hm hn less = ground (arith, h, less)
class_of-less false false b m n fraction exponent h hm hn less = ground (arith, h, less)

fraction-exponent : (f : Format) → fraction_mask f < exponent_mask f
unfolding fraction_mask exponent_mask
fraction-exponent Format.single = omega arith
fraction-exponent Format.double = omega arith

-- The lesser of two numbers has no greater class.
pub isless-classify :
    (f : Format) (x y : ℕ)
    → isnan f x ≡ false
    → isnan f y ≡ false
    → isless f x y ≡ true
    → classify f x ≤ classify f y
unfolding key
isless-classify f x y real real' less =
    rw (classify-class_of f x real, classify-class_of f y real')
      (class_of-less (signbit f x) (signbit f y) (sign_mask f) (unsigned_part f x)
        (unsigned_part f y) (fraction_mask f) (exponent_mask f) (fraction-exponent f)
        (unsigned_part-lt f x) (unsigned_part-lt f y) (sym (isless-key f x y real real') ∙ less))

masked_low : (n x : ℕ) → bit_and x (2 ^ n - 1) ≡ x % 2 ^ n
masked_low n x =
    ap (λ (y : ℕ). bit_and y (2 ^ n - 1)) (sym (div-add-mod' x (2 ^ n)))
    ∙ bit_and-low n (x / 2 ^ n) (x % 2 ^ n) (mod-lt x (two_pow_pos n))

masked_high : (n e x : ℕ) → bit_and x ((2 ^ e - 1) * 2 ^ n) ≡ x / 2 ^ n % 2 ^ e * 2 ^ n
masked_high n e x =
    ap (λ (y : ℕ). bit_and y ((2 ^ e - 1) * 2 ^ n)) (sym (div-add-mod' x (2 ^ n)))
    ∙ bit_and-high n (x / 2 ^ n) (x % 2 ^ n) (2 ^ e - 1) (mod-lt x (two_pow_pos n))
    ∙ ap (λ (y : ℕ). y * 2 ^ n) (masked_low e (x / 2 ^ n))

-- A signalling NaN is a NaN.
pub issnan-isnan : (f : Format) (x : ℕ) → isnan f x ≡ false → issnan f x ≡ false
unfolding isnan issnan unsigned_part sign_mask exponent_mask fraction_mask
issnan-isnan Format.single x real = rw (masked_high 23 8 x, masked_low 23 x) (ground (arith, real))
issnan-isnan Format.double x real = rw (masked_high 52 11 x, masked_low 52 x) (ground (arith, real))
