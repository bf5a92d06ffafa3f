-- ===== src/Decoder/Table/Subsets.antt =====
-- How the loop of `build_lut` goes on: from each submask to the next larger one, and from the
-- largest to 0.
use riscv_em.Base.{
  ℕ, zero, suc, ◌+◌, ◌-◌, ◌*◌, ◌/◌, ◌%◌, ◌^◌, ◌≤◌, ◌<◌, ◌≡◌, ap, bit_and, u32, arith, min, inl, inr,
  ◌⊎◌,
}
use riscv_em.Base.Bits.{bit_and_digit, bit_and-zero}
use riscv_em.Decoder.Table.{next_sub_mask}
use native.Mathlib.Nat.{pow-suc}
use Prim.Native.Nat.{bit_and-bitwise}

-- The bits of `s` are bits of `d`.
abbrev pub Within : ℕ → ℕ → Type 0
Within d s = bit_and s d ≡ s

Within-half : (d s : ℕ) → Within d s → Within (d / 2) (s / 2)
Within-half d s w = omega (arith, bit_and_digit s d)

Within-digit : (d s : ℕ) → Within d s → s % 2 ≤ d % 2
Within-digit d s w = omega (arith, bit_and_digit s d)

pub Within-le : (n d s : ℕ) → d < 2 ^ n → s < 2 ^ n → Within d s → s ≤ d
Within-le zero d s hd hs w = omega arith
Within-le (suc n) d s hd hs w = omega (
  arith,
  Within-le n (d / 2) (s / 2) (omega (arith, pow-suc 2 n)) (omega (arith, pow-suc 2 n))
      (Within-half d s w),
  Within-digit d s w,
)

-- With the bits outside of `d` set, the bits of `s` come back.
gap_filled : (n d s : ℕ) → d < 2 ^ n → s < 2 ^ n → Within d s → bit_and (s + (2 ^ n - 1 - d)) d ≡ s
gap_filled zero d s hd hs w = grind (arith, bit_and-zero (s + (2 ^ 0 - 1 - d)))
gap_filled (suc n) d s hd hs w =
    let x = s + (2 ^ suc n - 1 - d) in
    let half : x / 2 ≡ s / 2 + (2 ^ n - 1 - d / 2) =
      omega (arith, pow-suc 2 n, Within-digit d s w) in
    let digit : min (x % 2) (d % 2) ≡ s % 2 = omega (arith, pow-suc 2 n, Within-digit d s w) in
    let rest : bit_and (x / 2) (d / 2) ≡ s / 2 = rw half (
      gap_filled n (d / 2) (s / 2) (omega (arith, pow-suc 2 n)) (omega (arith, pow-suc 2 n))
        (Within-half d s w)) in
    omega (arith, bit_and_digit x d)

-- The next submask of a width of `n` bits.
abbrev successor : ℕ → ℕ → ℕ → ℕ
successor n d s = bit_and (s + (2 ^ n - d)) d

successor-odd :
    (n d s : ℕ)
    → d < 2 ^ suc n
    → Within d s
    → s < d
    → d % 2 ≡ 1
    → s % 2 ≡ 0
    → successor (suc n) d s ≡ s + 1
successor-odd n d s hd w below odd even =
    let x = s + (2 ^ suc n - d) in
    let half : x / 2 ≡ s / 2 + (2 ^ n - 1 - d / 2) = omega (arith, pow-suc 2 n) in
    let rest : bit_and (x / 2) (d / 2) ≡ s / 2 = rw half (
      gap_filled n (d / 2) (s / 2) (omega (arith, pow-suc 2 n)) (omega (arith, pow-suc 2 n))
        (Within-half d s w)) in
    omega (arith, bit_and_digit x d, pow-suc 2 n)

successor-even :
    (n d s : ℕ)
    → d < 2 ^ suc n
    → s < d
    → s % 2 ≡ d % 2
    → successor (suc n) d s ≡ 2 * successor n (d / 2) (s / 2)
successor-even n d s hd below same =
    let x = s + (2 ^ suc n - d) in
    let half : x / 2 ≡ s / 2 + (2 ^ n - d / 2) = omega (arith, pow-suc 2 n) in
    let rest : bit_and (x / 2) (d / 2) ≡ successor n (d / 2) (s / 2) =
      ap (λ (t : ℕ). bit_and t (d / 2)) half in
    omega (arith, bit_and_digit x d, pow-suc 2 n)

Within-twice : (d v : ℕ) → Within (d / 2) v → Within d (2 * v)
Within-twice d v w =
    let half : 2 * v / 2 ≡ v = omega arith in
    let rest : bit_and (2 * v / 2) (d / 2) ≡ v = rw half w in omega (arith, bit_and_digit (2 * v) d)

Within-next : (d s : ℕ) → Within d s → d % 2 ≡ 1 → s % 2 ≡ 0 → Within d (s + 1)
Within-next d s w odd even =
    let half : (s + 1) / 2 ≡ s / 2 = omega arith in
    let rest : bit_and ((s + 1) / 2) (d / 2) ≡ s / 2 = rw half (Within-half d s w) in
    omega (arith, bit_and_digit (s + 1) d)

-- `successor n d s` is the least submask above `s`.
unfoldable Least : ℕ → ℕ → ℕ → Type 0
Least d s v = (s < v) × Within d v × ((t : ℕ) → Within d t → s < t → v ≤ t)

Least-next : (d s : ℕ) → Within d s → d % 2 ≡ 1 → s % 2 ≡ 0 → Least d s (s + 1)
unfolding Least
Least-next d s w odd even = (omega arith, Within-next d s w odd even, λ t wt h. omega arith)

Least-twice : (d s v : ℕ) → s % 2 ≡ d % 2 → Least (d / 2) (s / 2) v → Least d s (2 * v)
unfolding Least
Least-twice d s v same (above, w, least) = (
  omega arith,
  Within-twice d v w,
  λ t wt h. omega (arith, least (t / 2) (Within-half d t wt) (omega (arith, Within-digit d t wt))),
)

successor-Least : (n d s : ℕ) → d < 2 ^ n → Within d s → s < d → Least d s (successor n d s)
successor-Least zero d s hd w below = absurd (omega arith)
successor-Least (suc n) d s hd w below =
    let digit : ((d % 2 ≡ 1) × (s % 2 ≡ 0)) ⊎ (s % 2 ≡ d % 2) =
      ground (arith, Within-digit d s w) in
    let smaller =
      successor-Least n (d / 2) (s / 2) (omega (arith, pow-suc 2 n)) (Within-half d s w) in
    elim digit [
      | inl (odd, even) ↦ rw (successor-odd n d s hd w below odd even) (Least-next d s w odd even)
      | inr same ↦
          rw (successor-even n d s hd below same)
            (Least-twice d s (successor n (d / 2) (s / 2)) same (smaller (omega arith)))
    ]

pub Within-none : (d : ℕ) → Within d 0
Within-none d = simp bit_and-bitwise (omega arith)

-- The largest submask is followed by 0.
pub next_sub_mask-last : (d : ℕ) → d < 2 ^ 32 → next_sub_mask d d ≡ 0
unfolding next_sub_mask
next_sub_mask-last d h =
    let wraps : u32 (d + 2 ^ 32 - d) ≡ 0 = omega arith in rw wraps (Within-none d)

-- Any other submask is followed by the least submask above it.
pub next_sub_mask-Least :
    (d s : ℕ)
    → d < 2 ^ 32
    → Within d s
    → s < d
    → (s < next_sub_mask d s)
      × Within d (next_sub_mask d s)
      × ((t : ℕ) → Within d t → s < t → next_sub_mask d s ≤ t)
unfolding next_sub_mask
next_sub_mask-Least d s h w below =
    let same : u32 (s + 2 ^ 32 - d) ≡ s + (2 ^ 32 - d) = omega arith in
    rw same (unfold Least in successor-Least 32 d s h w below)
