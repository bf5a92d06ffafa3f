-- ===== src/Memory/Bytes.antt =====
-- What is stored little-endian is read back, and other bytes stay.
use riscv_em.Base.{
  ℕ, zero, suc, ◌+◌, ◌*◌, ◌/◌, ◌%◌, ◌^◌, ◌≤◌, ◌<◌, ◌⊎◌, ◌≡◌, refl, sym, ap, ◌∙◌, arith,
}
use riscv_em.Base.Fields.{pow-add, two_pow_pos}
use native.Mathlib.Nat.{mod-lt, mod-eq_of_lt, div-add-mod, mul-add-mod_self_left}
use riscv_em.Memory.{load_bytes, store_bytes}

-- A byte below the written ones keeps its value, and so does one above.
store_bytes-frame :
    (n p value : ℕ) (bytes : ℕ → ℕ) (i : ℕ)
    → (i < p) ⊎ (p + n ≤ i)
    → store_bytes n p value bytes i ≡ bytes i
unfolding store_bytes
store_bytes-frame zero p value bytes i out = refl
store_bytes-frame (suc n) p value bytes i out =
    ground (arith, store_bytes-frame n (p + 1) (value / 2 ^ 8) bytes i)

load_bytes-cong :
    (n p : ℕ) (f g : ℕ → ℕ) → ((i : ℕ) → p ≤ i → f i ≡ g i) → load_bytes n p f ≡ load_bytes n p g
unfolding load_bytes
load_bytes-cong zero p f g same = refl
load_bytes-cong (suc n) p f g same =
    ground (arith, same p, load_bytes-cong n (p + 1) f g (λ i above. same i (ground arith)))

-- The lowest byte and the rest of a number's low part.
split_byte : (m v : ℕ) → 0 < m → v % 256 + 256 * (v / 256 % m) ≡ v % (256 * m)
split_byte m v pos =
    let w = v / 256 in
    let low = mod-lt w pos in
    let small : v % 256 + 256 * (w % m) < 256 * m = omega arith in
    let whole : v ≡ (256 * m) * (w / m) + (v % 256 + 256 * (w % m)) =
      grind (arith, div-add-mod w m, div-add-mod v 256) in
    sym (
      ap (λ (t : ℕ). t % (256 * m)) whole
      ∙ mul-add-mod_self_left (256 * m) (w / m) (v % 256 + 256 * (w % m))
      ∙ mod-eq_of_lt small)

bits_of_bytes : (n : ℕ) → 256 * 2 ^ (8 * n) ≡ 2 ^ (8 * suc n)
bits_of_bytes n =
    let more : 8 + 8 * n ≡ 8 * suc n = omega arith in
    sym (pow-add 8 (8 * n)) ∙ ap (λ (t : ℕ). 2 ^ t) more

-- The bytes that were written, read from the same place.
pub load_bytes-store_bytes :
    (n p value : ℕ) (bytes : ℕ → ℕ)
    → load_bytes n p (store_bytes n p value bytes) ≡ value % 2 ^ (8 * n)
unfolding load_bytes store_bytes
load_bytes-store_bytes zero p value bytes = ground arith
load_bytes-store_bytes (suc n) p value bytes =
    let rest = store_bytes n (p + 1) (value / 2 ^ 8) bytes in
    let kept =
      load_bytes-cong n (p + 1) (store_bytes (suc n) p value bytes) rest
        (λ i above. ground arith) in
    ground (
      arith,
      kept,
      load_bytes-store_bytes n (p + 1) (value / 2 ^ 8) bytes,
      split_byte (2 ^ (8 * n)) value (two_pow_pos (8 * n)),
      bits_of_bytes n,
    )
