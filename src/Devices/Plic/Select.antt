-- ===== src/Devices/Plic/Select.antt =====
-- `find_highest_pending_enabled` picks the source that the PLIC's rule names: pending, enabled,
-- above the threshold, of the highest priority, and of those the lowest number.
use native.Mathlib.Decide.{ℕ_discrete, dec_lt}
use riscv_em.Base.{
  subst, ℕ, zero, suc, ◌+◌, ◌-◌, ◌*◌, ◌/◌, ◌%◌, ◌^◌, ◌≤◌, ◌<◌, bit_and, ◌≡◌, refl, ap, ◌≢◌, ◌↔◌,
  ◌⊎◌, inl, inr, arith, ◌==◌, false, List, [], ◌∷◌, In, In-cons, get_or, get_or_past, length,
  not-In-nil,
}
use riscv_em.Base.Bits.{bit, bit-lt, bit-above, bit-bit_and, bit_and-lt, bit-zero}
use riscv_em.Devices.Plic.{
  Plic, Context, Best, consider, scan_word, scan_words, highest_in, countr_zero,
}
use riscv_em.Devices.Plic.Ones.{ones, ones-nil, ones-zero, ones-step, In-ones}
use riscv_em.Devices.Plic.Leads.{Admissible, Beats, Leads, Leads-resp, consider-Leads, Consistent}

module _ (p : Plic) (ctx : Context) where
  test_off : (a : ℕ) → a ≢ 0 → (a == 0) ≡ false
  test_off a h = ground arith

  -- What has been seen once a word's loop has met the positions `ks`.
  abbrev Met : (ℕ → Type 0) → ℕ → List ℕ → ℕ → Type 0
  Met seen word ks j = seen j ⊎ ((k : ℕ) × In k ks × (j ≡ word * 32 + k))

  Met-nil : (seen : ℕ → Type 0) (word j : ℕ) → Met seen word [] j → seen j
  Met-nil seen word j (inl s) = s
  Met-nil seen word j (inr (k, i, e)) = absurd (not-In-nil k i)

  Met-cons_to :
      (seen : ℕ → Type 0) (word k : ℕ) (ks : List ℕ) (j : ℕ)
      → Met (λ i. seen i ⊎ (i ≡ word * 32 + k)) word ks j
      → Met seen word (k ∷ ks) j
  Met-cons_to seen word k ks j (inl (inl s)) = inl s
  Met-cons_to seen word k ks j (inl (inr e)) = inr (k, (In-cons k k ks).1 (inl refl), e)
  Met-cons_to seen word k ks j (inr (i, m, e)) = inr (i, (In-cons i k ks).1 (inr m), e)

  Met-cons_from :
      (seen : ℕ → Type 0) (word k : ℕ) (ks : List ℕ) (j : ℕ)
      → Met seen word (k ∷ ks) j
      → Met (λ i. seen i ⊎ (i ≡ word * 32 + k)) word ks j
  Met-cons_from seen word k ks j (inl s) = inl (inl s)
  Met-cons_from seen word k ks j (inr (i, m, e)) = elim ((In-cons i k ks).0 m) [
    | inl q ↦ inl (inr (omega arith))
    | inr m' ↦ inr (i, m', e)
  ]

  -- One word: the positions that the loop meets join what was seen.
  scan_word-Leads :
      (fuel word active : ℕ) (seen : ℕ → Type 0) (b : Best)
      → (Leads p ctx) seen b
      → (Leads p ctx) (Met seen word (ones 32 fuel active)) (scan_word fuel p ctx word active b)
  unfolding scan_word
  scan_word-Leads zero word active seen b l =
      rw (ones-nil 32 active) ((Leads-resp p ctx) (λ j s. inl s) (λ j s. Met-nil seen word j s) l)
  scan_word-Leads (suc fuel) word active seen b l = elim (ℕ_discrete active 0) [
    | yes z ↦
        rw (z, ones-zero 32 (suc fuel))
          ((Leads-resp p ctx) (λ j s. inl s) (λ j s. Met-nil seen word j s) l)
    | no nz ↦
        rw (ones-step 32 fuel active nz, test_off active nz)
          ((Leads-resp p ctx)
            (λ j s.
              Met-cons_to seen word (countr_zero 32 active)
                (ones 32 fuel (bit_and active (active - 1))) j s)
            (λ j s.
              Met-cons_from seen word (countr_zero 32 active)
                (ones 32 fuel (bit_and active (active - 1))) j s)
            (scan_word-Leads fuel word (bit_and active (active - 1))
              (λ j. seen j ⊎ (j ≡ word * 32 + countr_zero 32 active))
              (consider p ctx (word * 32 + countr_zero 32 active) b)
              ((consider-Leads p ctx) seen (word * 32 + countr_zero 32 active) b l)))
  ]

  abbrev active_word : ℕ → ℕ
  active_word w = bit_and (get_or p.pending_words w 0) (get_or ctx.enables w 0)

  -- The sources whose bit is set in a word from `lo` up to `lo + n`.
  abbrev InWords : ℕ → ℕ → ℕ → Type 0
  InWords lo n j =
      (w : ℕ) × (lo ≤ w)
      × (w < lo + n)
      × (k : ℕ) × In k (ones 32 32 (active_word w))
      × (j ≡ w * 32 + k)

  InWords-suc_to :
      (seen : ℕ → Type 0) (lo n j : ℕ)
      → (Met seen lo (ones 32 32 (active_word lo)) j) ⊎ InWords (lo + 1) n j
      → seen j ⊎ InWords lo (suc n) j
  InWords-suc_to seen lo n j (inl (inl s)) = inl s
  InWords-suc_to seen lo n j (inl (inr (k, i, e))) = inr (lo, omega arith, omega arith, k, i, e)
  InWords-suc_to seen lo n j (inr (w, a, b, k, i, e)) = inr (w, omega arith, omega arith, k, i, e)

  InWords-suc_from :
      (seen : ℕ → Type 0) (lo n j : ℕ)
      → seen j ⊎ InWords lo (suc n) j
      → (Met seen lo (ones 32 32 (active_word lo)) j) ⊎ InWords (lo + 1) n j
  InWords-suc_from seen lo n j (inl s) = inl (inl s)
  InWords-suc_from seen lo n j (inr (w, a, b, k, i, e)) = elim (ℕ_discrete w lo) [
    | yes q ↦ inl (inr (k, subst (λ t. In k (ones 32 32 (active_word t))) q i, omega arith))
    | no q ↦ inr (w, omega arith, omega arith, k, i, e)
  ]

  scan_words-Leads :
      (n lo : ℕ) (seen : ℕ → Type 0) (b : Best)
      → (Leads p ctx) seen b
      → (Leads p ctx) (λ j. seen j ⊎ InWords lo n j) (scan_words n p ctx lo b)
  unfolding scan_words
  scan_words-Leads zero lo seen b l =
      (Leads-resp p ctx) (λ j s. inl s)
        (λ j s. elim s [ inl x ↦ x | inr (w, a, c, k, i, e) ↦ absurd (omega arith) ]) l
  scan_words-Leads (suc n) lo seen b l =
      (Leads-resp p ctx) (InWords-suc_to seen lo n) (InWords-suc_from seen lo n) (
        scan_words-Leads n (lo + 1) (Met seen lo (ones 32 32 (active_word lo)))
          (scan_word 32 p ctx lo (active_word lo) b)
          (scan_word-Leads 32 lo (active_word lo) seen b l))

  -- A source that the PLIC may hand to the context: a valid number, pending, enabled for the
  -- context, and with a priority above the context's threshold.
  pub record Eligible (id : ℕ) : Type 0 where
    pub admissible : (Admissible p ctx) id
    pub pending : bit (id % 32) (get_or p.pending_words (id / 32) 0) ≡ 1
    pub enabled : bit (id % 32) (get_or ctx.enables (id / 32) 0) ≡ 1

  pub record IsSized : Type 0 where
    pub words : length p.pending_words ≡ (p.max_sources + 31) / 32
    pub enables : (w : ℕ) → get_or ctx.enables w 0 < 2 ^ 32

  active_word-lt : IsSized → (w : ℕ) → active_word w < 2 ^ 32
  active_word-lt z w =
      bit_and-lt 32 (get_or p.pending_words w 0) (get_or ctx.enables w 0) (z.enables w)

  below_word : IsSized → (w k : ℕ) → bit k (active_word w) ≡ 1 → k < 32
  below_word z w k e = elim (dec_lt k 32) [
    | yes h ↦ h
    | no h ↦
        absurd (omega (arith, bit-above 32 k (active_word w) (active_word-lt z w) (omega arith)))
  ]

  Eligible-InWords : IsSized → (j : ℕ) → Eligible j → InWords 0 ((p.max_sources + 31) / 32) j
  Eligible-InWords z j e = (
    j / 32,
    omega arith,
    word_known,
    j % 32,
    (In-ones 32 32 (active_word (j / 32)) (j % 32) (active_word-lt z (j / 32)) (omega arith)).1 (
        rw
          (bit-bit_and (j % 32) (get_or p.pending_words (j / 32) 0) (get_or ctx.enables (j / 32) 0))
          (omega arith)),
    omega arith,
  )
    where
      word_known : j / 32 < 0 + (p.max_sources + 31) / 32
      word_known = elim (dec_lt (j / 32) ((p.max_sources + 31) / 32)) [
        | yes h ↦ omega arith
        | no h ↦ absurd (
            omega (
              arith,
              ap (λ (t : ℕ). bit (j % 32) t) (get_or_past p.pending_words (j / 32) 0 (omega arith)),
              bit-zero (j % 32),
            ))
      ]

  InWords-Eligible : IsSized → (j n : ℕ) → InWords 0 n j → (Admissible p ctx) j → Eligible j
  InWords-Eligible z j n (w, lo, hi, k, i, e) a =
      let both : bit k (active_word w) ≡ 1 =
        (In-ones 32 32 (active_word w) k (active_word-lt z w) (omega arith)).0 i in
      let small : k < 32 = below_word z w k both in
      let position : j % 32 ≡ k = omega arith in
      let word : j / 32 ≡ w = omega arith in
      let each = bit-bit_and k (get_or p.pending_words w 0) (get_or ctx.enables w 0) in
      let p_lt = bit-lt k (get_or p.pending_words w 0) in
      let e_lt = bit-lt k (get_or ctx.enables w 0) in
      record {
        admissible = a;
        pending = rw (position, word) (omega arith);
        enabled = rw (position, word) (omega arith);
      }

  start_Leads : (Leads p ctx) (λ j. ⊥) (record { id = 0; priority = 0 })
  start_Leads = record {
    consistent = unfold Consistent in (λ z. refl, λ nz. absurd (nz refl));
    nothing = λ z j s. absurd s;
    leader = λ nz. absurd (nz refl);
  }

  -- The routine returns 0 exactly if no source is eligible for the context; any other result is
  -- eligible and beats every eligible source, by priority and then by the lower number. The
  -- pending words have the length that the constructor gives them, and the enable words 32 bits.
  pub highest_in-best :
      IsSized
      → ((highest_in p ctx ≡ 0) ↔ ((j : ℕ) → ¬ Eligible j))
        × (highest_in p ctx ≢ 0
            → Eligible (highest_in p ctx)
              × ((j : ℕ) → Eligible j → (Beats p ctx) (highest_in p ctx) j))
  unfolding highest_in
  highest_in-best z =
      let n : ℕ = (p.max_sources + 31) / 32 in
      let b = scan_words n p ctx 0 (record { id = 0; priority = 0 }) in
      let l : (Leads p ctx) (λ j. InWords 0 n j) b =
        (Leads-resp p ctx) (λ j s. elim s [ inl x ↦ absurd x | inr w ↦ w ]) (λ j s. inr s)
          (scan_words-Leads n 0 (λ j. ⊥) (record { id = 0; priority = 0 }) start_Leads) in
      let found : b.id ≢ 0 → Eligible b.id =
        λ nz. let (s, a, best) = l.leader nz in InWords-Eligible z b.id n s a in
      (
        (
          λ e j el. l.nothing e j (Eligible-InWords z j el) el.admissible,
          λ none. elim (ℕ_discrete b.id 0) [ yes q ↦ q | no nz ↦ absurd (none b.id (found nz)) ],
        ),
        λ nz.
            let (s, a, best) = l.leader nz in
            (found nz, λ j el. best j (Eligible-InWords z j el) el.admissible),
      )
