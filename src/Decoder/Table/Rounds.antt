-- ===== src/Decoder/Table/Rounds.antt =====
-- The loop of `build_lut` over one instruction ends, and what the table holds then.
use riscv_em.Base.{
  ℕ, zero, suc, ◌+◌, ◌^◌, ◌≤◌, ◌<◌, ◌≡◌, ◌≢◌, refl, sym, ap, subst, ◌∙◌, bit_and, bit_or, ◌==◌,
  ==_iff, leb, not32, false, Bool-cases, Option, none, some, inl, inr, ◌⊎◌, arith,
}
use riscv_em.Base.Bits.{bit_and-lt}
use riscv_em.Decoder.{Instruction}
use riscv_em.Decoder.Table.{
  Lut, better, put, enter, enter_all, dont_care, for_sub_masks, next_sub_mask,
}
use riscv_em.Decoder.Table.Subsets.{
  Within, Within-le, Within-none, next_sub_mask-last, next_sub_mask-Least,
}

better_again :
    {F : Type 0} (inst : Instruction F) (old : Option (Instruction F))
    → better inst (some (better inst old)) ≡ better inst old
unfolding better
better_again inst none = ground arith
better_again inst (some old) = ground arith

module _ {S : Type 0} (d : ℕ) (body : ℕ → S → Option S) where
  for_sub_masks-last :
      (fuel s : ℕ) (now after : S)
      → body s now ≡ some after
      → next_sub_mask d s ≡ 0
      → for_sub_masks (suc fuel) d body s now ≡ some after
  unfolding for_sub_masks
  for_sub_masks-last fuel s now after step last = rw (for_sub_masks, step, last) refl

  for_sub_masks-next :
      (fuel s : ℕ) (now after : S)
      → body s now ≡ some after
      → 0 < next_sub_mask d s
      → for_sub_masks (suc fuel) d body s now ≡ for_sub_masks fuel d body (next_sub_mask d s) after
  unfolding for_sub_masks
  for_sub_masks-next fuel s now after step more =
      let goes_on : (next_sub_mask d s == 0) ≡ false = ground (arith, more) in
      rw (for_sub_masks, step, goes_on) refl

module _ {F : Type 0} (pext : ℕ → ℕ → ℕ) (hash size : ℕ) (inst : Instruction F) where
  abbrev pub key : ℕ → ℕ
  key t = pext (bit_or (bit_and inst.match hash) t) hash

  -- The entry at `i` after the submasks below `n`: that of the better instruction if one of the
  -- keys was `i`, and the old one otherwise.
  unfoldable pub Entered : ℕ → ℕ → Lut F → Lut F → ℕ → Type 0
  Entered d n lut lut' i =
      ((t : ℕ) × Within d t × (t < n) × (key t ≡ i) × (lut' i ≡ some (better inst (lut i))))
      ⊎ ((lut' i ≡ lut i) × ((t : ℕ) → Within d t → t < n → key t ≢ i))

  Entered-nothing : (d : ℕ) (lut : Lut F) (i : ℕ) → Entered d 0 lut lut i
  unfolding Entered
  Entered-nothing d lut i = inr (refl, λ t w h. elim h [ ])

  better_after :
      (d s : ℕ) (lut now : Lut F) (i : ℕ)
      → Entered d s lut now i
      → better inst (now i) ≡ better inst (lut i)
  unfolding Entered
  better_after d s lut now i (inl (t, w, below, at, e)) = rw e (better_again inst (lut i))
  better_after d s lut now i (inr (e, others)) = ap (better inst) e

  -- An entry under another key than the submask's stays as it is.
  Entered-elsewhere :
      (d s : ℕ) (lut now : Lut F) (i : ℕ)
      → key s ≢ i
      → Entered d s lut now i
      → Entered d (suc s) lut now i
  unfolding Entered
  Entered-elsewhere d s lut now i other (inl (t, w, below, at, e)) = inl (t, w, omega arith, at, e)
  Entered-elsewhere d s lut now i other (inr (e, others)) =
      inr (e, λ t w below at. ground (arith, others t w, other, at))

  Entered-same :
      (d n : ℕ) (lut now now' : Lut F) (i : ℕ)
      → now' i ≡ now i
      → Entered d n lut now i
      → Entered d n lut now' i
  unfolding Entered
  Entered-same d n lut now now' i same (inl (t, w, below, at, e)) = inl (t, w, below, at, same ∙ e)
  Entered-same d n lut now now' i same (inr (e, others)) = inr (same ∙ e, others)

  -- The round of a submask.
  Entered-put :
      (d s : ℕ) (lut now : Lut F) (i : ℕ)
      → Within d s
      → Entered d s lut now i
      → Entered d (suc s) lut (put (key s) (better inst (now (key s))) now) i
  Entered-put d s lut now i w old = elim (Bool-cases (i == key s)) [
    | inl here ↦
        let at : key s ≡ i = sym ((==_iff i (key s)).0 here) in
        unfold Entered in
        inl (s, w, omega arith, at, rw (here, at) (ap some (better_after d s lut now i old)))
    | inr there ↦
        Entered-same d (suc s) lut now (put (key s) (better inst (now (key s))) now) i
          (rw there refl) (Entered-elsewhere d s lut now i (λ at. ground (arith, there, at)) old)
  ]

  -- No submask stands between one and the next.
  Entered-skip :
      (d n m : ℕ) (lut now : Lut F) (i : ℕ)
      → n ≤ m
      → ((t : ℕ) → Within d t → t < m → t < n)
      → Entered d n lut now i
      → Entered d m lut now i
  unfolding Entered
  Entered-skip d n m lut now i le none_between (inl (t, w, below, at, e)) =
      inl (t, w, omega arith, at, e)
  Entered-skip d n m lut now i le none_between (inr (e, others)) =
      inr (e, λ t w below. others t w (none_between t w below))

  module _ (bounded : (x : ℕ) → pext x hash < size) where
    enter-some :
        (s : ℕ) (now : Lut F)
        → enter pext hash size inst s now ≡ some (put (key s) (better inst (now (key s))) now)
    unfolding enter
    enter-some s now =
        let inside : leb size (key s) ≡ false =
          ground (arith, bounded (bit_or (bit_and inst.match hash) s)) in
        rw inside refl

    Within-below : (d s : ℕ) → d < 2 ^ 32 → Within d s → s ≤ d
    Within-below d s h w = Within-le 32 d s h (omega (arith, bit_and-lt 32 s d h)) w

    -- With a round left for each number from the submask up to the last one, the loop ends.
    rounds :
        (d : ℕ) (small : d < 2 ^ 32) (fuel s : ℕ) (lut now : Lut F)
        → Within d s
        → d < fuel + s
        → ((i : ℕ) → Entered d s lut now i)
        → (lut' : Lut F) × (for_sub_masks fuel d (enter pext hash size inst) s now ≡ some lut')
          × ((i : ℕ) → Entered d (suc d) lut lut' i)
    rounds d small zero s lut now w enough old = absurd (omega (arith, Within-below d s small w))
    rounds d small (suc fuel) s lut now w enough old =
        let after : Lut F = put (key s) (better inst (now (key s))) now in
        let entered : (i : ℕ) → Entered d (suc s) lut after i =
          (λ i. Entered-put d s lut now i w (old i)) in
        let place : (s ≡ d) ⊎ (s < d) = ground (arith, Within-below d s small w) in
        elim place [
          | inl last ↦ (
            after,
            for_sub_masks-last d (enter pext hash size inst) fuel s now after (enter-some s now)
                (ap (next_sub_mask d) last ∙ next_sub_mask-last d small),
            subst (λ m. (i : ℕ) → Entered d (suc m) lut after i) last entered,
          )
          | inr more ↦
              let (above, within, least) = next_sub_mask-Least d s small w more in
              let (lut', done, final) =
                rounds d small fuel (next_sub_mask d s) lut after within (omega arith) (λ i.
                  Entered-skip d (suc s) (next_sub_mask d s) lut after i above
                    (λ t wt below. ground (arith, least t wt)) (entered i)) in
              (
                lut',
                for_sub_masks-next d (enter pext hash size inst) fuel s now after (enter-some s now)
                      (omega arith)
                    ∙ done,
                final,
              )
        ]

dont_care-lt : {F : Type 0} (hash : ℕ) (inst : Instruction F) → dont_care hash inst < 2 ^ 32
unfolding dont_care
dont_care-lt hash inst = bit_and-lt 32 hash (not32 (bit_and inst.mask hash)) (omega arith)

module _ {F : Type 0} (pext : ℕ → ℕ → ℕ) (hash size : ℕ) (bounded : (x : ℕ) → pext x hash < size)
    (inst : Instruction F) (lut : Lut F) where
  -- What the entries of a table are after an instruction was entered: each one under a key that the
  -- pattern leaves open is that of the better instruction, and the others are as they were.
  unfoldable pub Entries : Lut F → Type 0
  Entries lut' =
      (i : ℕ)
      → ((t : ℕ) × Within (dont_care hash inst) t
          × (key pext hash size inst t ≡ i)
          × (lut' i ≡ some (better inst (lut i))))
        ⊎ ((lut' i ≡ lut i)
            × ((t : ℕ) → Within (dont_care hash inst) t → key pext hash size inst t ≢ i))

  unbounded :
      (lut' : Lut F) (i : ℕ)
      → Entered pext hash size inst (dont_care hash inst) (suc (dont_care hash inst)) lut lut' i
      → ((t : ℕ) × Within (dont_care hash inst) t
          × (key pext hash size inst t ≡ i)
          × (lut' i ≡ some (better inst (lut i))))
        ⊎ ((lut' i ≡ lut i)
            × ((t : ℕ) → Within (dont_care hash inst) t → key pext hash size inst t ≢ i))
  unfolding Entered
  unbounded lut' i (inl (t, w, below, at, e)) = inl (t, w, at, e)
  unbounded lut' i (inr (e, others)) =
      let d = dont_care hash inst in
      inr (
        e,
        λ t w. others t w (
            omega (arith, Within-below pext hash size inst bounded d t (dont_care-lt hash inst) w)),
      )

  -- Within 2 ^ 32 rounds the loop over an instruction's submasks ends.
  pub enter_all-Entries :
      (lut' : Lut F) × (enter_all pext hash size inst lut ≡ some lut') × Entries lut'
  unfolding enter_all Entries
  enter_all-Entries =
      let d = dont_care hash inst in
      let (lut', done, entered) =
        rounds pext hash size inst bounded d (dont_care-lt hash inst) (2 ^ 32) 0 lut lut
          (Within-none d) (omega (arith, dont_care-lt hash inst))
          (λ i. Entered-nothing pext hash size inst d lut i) in
      (lut', done, λ i. unbounded lut' i (entered i))
