-- ===== src/Base/Fields.antt =====
-- Bit fields of a word: `width` bits from bit `low` on, as C lays out a bit-field.
use Prim.Native.Nat.{ℕ, zero, suc, ◌+◌, ◌-◌, ◌*◌, ◌/◌, ◌%◌, ◌^◌, ◌≤◌, ◌<◌}
use mathlib.Core.Path.{◌≡◌, sym, ap, ◌∙◌}
use native.Mathlib.Nat.{
  pow-suc, one-le-pow, mod-lt, mod-mod, div-eq_of_lt, mul-add-div_right, mul-add-mod_self_right,
  div-div-eq-div-mul, div-add-mod', mul_assoc, add-zero,
}
use native.Mathlib.Omega.{arith}

abbrev pub field : ℕ → ℕ → ℕ → ℕ
field width low r = r / 2 ^ low % 2 ^ width

-- An assignment keeps the value's low bits only, and all other bits of the word.
unfoldable pub set_field : ℕ → ℕ → ℕ → ℕ → ℕ
set_field width low v r =
    (r / 2 ^ low / 2 ^ width * 2 ^ width + v % 2 ^ width) * 2 ^ low + r % 2 ^ low

pub two_pow_pos : (k : ℕ) → 0 < 2 ^ k
two_pow_pos k = one-le-pow k 2 (omega arith)

pub pow-add : (m n : ℕ) → 2 ^ (m + n) ≡ 2 ^ m * 2 ^ n
pow-add zero n = ground (arith)
pow-add (suc m) n = grind (arith, pow-suc 2 (m + n), pow-suc 2 m, pow-add m n)

regroup : (q a m b : ℕ) → q * (a * (m * b)) ≡ q * b * m * a
regroup q a m b = grind arith

-- Whatever stands at `a * m` and above does not reach the digits from `a` up to `a * m`.
low_digits : (q z a m b : ℕ) → 0 < a → (q * (a * (m * b)) + z) / a % m ≡ z / a % m
low_digits q z a m b h =
    rw
      (regroup q a m b, mul-add-div_right h (q * b * m) z, mul-add-mod_self_right (q * b) m (z / a))

power_split : (w' l' l : ℕ) → l' + w' ≤ l → 2 ^ l ≡ 2 ^ l' * (2 ^ w' * 2 ^ (l - (l' + w')))
power_split w' l' l h =
    let e : l ≡ l' + (w' + (l - (l' + w'))) = omega arith in
    ap (λ (t : ℕ). 2 ^ t) e
    ∙ pow-add l' (w' + (l - (l' + w')))
    ∙ ap (λ (t : ℕ). 2 ^ l' * t) (pow-add w' (l - (l' + w')))

above_split : (w l l' x : ℕ) → l + w ≤ l' → x / 2 ^ l' ≡ x / 2 ^ l / 2 ^ w / 2 ^ (l' - (l + w))
above_split w l l' x h =
    ap (λ (t : ℕ). x / t) (power_split w l l' h)
    ∙ sym (
        ap (λ (t : ℕ). t / 2 ^ (l' - (l + w))) (div-div-eq-div-mul x (2 ^ l) (2 ^ w))
        ∙ div-div-eq-div-mul x (2 ^ l * 2 ^ w) (2 ^ (l' - (l + w)))
        ∙ ap (λ (t : ℕ). x / t) (mul_assoc (2 ^ l) (2 ^ w) (2 ^ (l' - (l + w)))))

above_set : (w l v r : ℕ) → set_field w l v r / 2 ^ l / 2 ^ w ≡ r / 2 ^ l / 2 ^ w
unfolding set_field
above_set w l v r =
    rw
      (
        mul-add-div_right (two_pow_pos l) (r / 2 ^ l / 2 ^ w * 2 ^ w + v % 2 ^ w) (r % 2 ^ l),
        div-eq_of_lt (mod-lt r (two_pow_pos l)),
        add-zero,
        mul-add-div_right (two_pow_pos w) (r / 2 ^ l / 2 ^ w) (v % 2 ^ w),
        div-eq_of_lt (mod-lt v (two_pow_pos w)),
      )
      (add-zero _)

-- What was assigned is read back, cut to the field's width.
pub field-set_field_self : (w l v r : ℕ) → field w l (set_field w l v r) ≡ v % 2 ^ w
unfolding set_field
field-set_field_self w l v r = rw (
  mul-add-div_right (two_pow_pos l) (r / 2 ^ l / 2 ^ w * 2 ^ w + v % 2 ^ w) (r % 2 ^ l),
  div-eq_of_lt (mod-lt r (two_pow_pos l)),
  add-zero,
  mul-add-mod_self_right,
  mod-mod,
)

-- A field that ends below keeps its value.
pub field-set_field_below :
    (w l v r w' l' : ℕ) → l' + w' ≤ l → field w' l' (set_field w l v r) ≡ field w' l' r
unfolding set_field
field-set_field_below w l v r w' l' h =
    let b : ℕ = 2 ^ (l - (l' + w')) in
    let split : 2 ^ l ≡ 2 ^ l' * (2 ^ w' * b) = power_split w' l' l h in
    let q : ℕ = r / 2 ^ l / 2 ^ w * 2 ^ w + v % 2 ^ w in
    let left : (q * 2 ^ l + r % 2 ^ l) / 2 ^ l' % 2 ^ w' ≡ r % 2 ^ l / 2 ^ l' % 2 ^ w' =
      ap (λ (t : ℕ). (q * t + r % 2 ^ l) / 2 ^ l' % 2 ^ w') split
      ∙ low_digits q (r % 2 ^ l) (2 ^ l') (2 ^ w') b (two_pow_pos l') in
    let right : (r / 2 ^ l * 2 ^ l + r % 2 ^ l) / 2 ^ l' % 2 ^ w' ≡ r % 2 ^ l / 2 ^ l' % 2 ^ w' =
      ap (λ (t : ℕ). (r / 2 ^ l * t + r % 2 ^ l) / 2 ^ l' % 2 ^ w') split
      ∙ low_digits (r / 2 ^ l) (r % 2 ^ l) (2 ^ l') (2 ^ w') b (two_pow_pos l') in
    left ∙ sym right ∙ ap (λ (t : ℕ). t / 2 ^ l' % 2 ^ w') (div-add-mod' r (2 ^ l))

-- A field that begins above keeps its value.
pub field-set_field_above :
    (w l v r w' l' : ℕ) → l + w ≤ l' → field w' l' (set_field w l v r) ≡ field w' l' r
unfolding set_field
field-set_field_above w l v r w' l' h =
    let b : ℕ = 2 ^ (l' - (l + w)) in
    ap (λ (t : ℕ). t % 2 ^ w')
      (above_split w l l' (set_field w l v r) h
        ∙ ap (λ (t : ℕ). t / b) (above_set w l v r)
        ∙ sym (above_split w l l' r h))
