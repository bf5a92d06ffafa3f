-- ===== src/Decoder/Table/Built.antt =====
-- `build_lut` ends, and under the key of a word each registered instruction that the word matches
-- has been weighed.
use riscv_em.Base.{
  ℕ, ◌^◌, ◌≤◌, ◌<◌, ◌≡◌, ◌≢◌, refl, sym, ap, subst, ◌∙◌, bit_and, ◌==◌, ltb, Bool-cases, List, [],
  ◌∷◌, Option, none, some, inl, inr, arith,
}
use riscv_em.Decoder.{Instruction, hash_mask, hash_mask_16}
use riscv_em.Decoder.Table.{Lut, popcount, better, enter_all, build_lut}
use riscv_em.Decoder.Table.Keys.{submask_of, word_key, submask_of-Within}
use riscv_em.Decoder.Table.Rounds.{key, Entries, enter_all-Entries}
use riscv_em.Decoder.Table.Origins.{
  Among, Among-head, Among-tail, Adds, Adds-nothing, Adds-both, Entries-Adds,
}

module _ {F : Type 0} where
  -- The entry is an instruction with at least as many fixed bits.
  unfoldable pub Weighed : Instruction F → Option (Instruction F) → Type 0
  Weighed inst entry =
      (best : Instruction F) × (entry ≡ some best) × (popcount 32 inst.mask ≤ popcount 32 best.mask)

  better-Weighed :
      (inst : Instruction F) (old : Option (Instruction F)) → Weighed inst (some (better inst old))
  unfolding Weighed better
  better-Weighed inst none = (inst, refl, omega arith)
  better-Weighed inst (some old) =
      elim (Bool-cases (ltb (popcount 32 old.mask) (popcount 32 inst.mask))) [
        | inl more ↦ (inst, rw more refl, omega arith)
        | inr not_more ↦ (old, rw not_more refl, ground (arith, not_more))
      ]

  entry_bits : Option (Instruction F) → ℕ
  entry_bits none = 0
  entry_bits (some old) = popcount 32 old.mask

  Weighed-le :
      (x old : Instruction F) → Weighed x (some old) → popcount 32 x.mask ≤ popcount 32 old.mask
  unfolding Weighed
  Weighed-le x old (best, e, le) =
      let same : popcount 32 old.mask ≡ popcount 32 best.mask =
        unfold entry_bits in ap entry_bits e in
      omega arith

  -- An entry that gives way gives way to an instruction with more fixed bits.
  Weighed-better :
      (x inst : Instruction F) (old : Option (Instruction F))
      → Weighed x old
      → Weighed x (some (better inst old))
  unfolding better
  Weighed-better x inst none weighed = absurd (unfold Weighed in cc)
  Weighed-better x inst (some old) weighed =
      elim (Bool-cases (ltb (popcount 32 old.mask) (popcount 32 inst.mask))) [
        | inl more ↦
            rw more (unfold Weighed in (inst, refl, ground (arith, more, Weighed-le x old weighed)))
        | inr not_more ↦ rw not_more weighed
      ]

  -- A table keeps what it has weighed.
  unfoldable pub Keeps : Lut F → Lut F → Type 0
  Keeps lut lut' = (x : Instruction F) (i : ℕ) → Weighed x (lut i) → Weighed x (lut' i)

module _ {F : Type 0} (pext : ℕ → ℕ → ℕ) (bounded : (x m : ℕ) → pext x m < 2 ^ popcount 32 m)
    (selects : (x m : ℕ) → pext (bit_and x m) m ≡ pext x m) where
  module _ (hash size : ℕ) (small : hash < 2 ^ 32) (room : size ≡ 2 ^ popcount 32 hash)
      (inst : Instruction F) (lut : Lut F) where
    fitting : (x : ℕ) → pext x hash < size
    fitting x = subst (λ n. pext x hash < n) (sym room) (bounded x hash)

    Entries-Weighed :
        (lut' : Lut F)
        → Entries pext hash size fitting inst lut lut'
        → (x : Instruction F) (i : ℕ) → Weighed x (lut i)
        → Weighed x (lut' i)
    unfolding Entries
    Entries-Weighed lut' entries x i weighed = elim (entries i) [
      | inl (t, w, at, e) ↦ subst (Weighed x) (sym e) (Weighed-better x inst (lut i) weighed)
      | inr (e, others) ↦ subst (Weighed x) (sym e) weighed
    ]

    key-pext :
        (word : ℕ)
        → bit_and word inst.mask ≡ inst.match
        → key pext hash size inst (submask_of hash inst word) ≡ pext word hash
    key-pext word matches =
        ap (λ k. pext k hash) (word_key hash inst word small matches) ∙ selects word hash

    Entries-own :
        (lut' : Lut F)
        → Entries pext hash size fitting inst lut lut'
        → (word : ℕ) → bit_and word inst.mask ≡ inst.match
        → Weighed inst (lut' (pext word hash))
    unfolding Entries
    Entries-own lut' entries word matches = elim (entries (pext word hash)) [
      | inl (t, w, at, e) ↦
          subst (Weighed inst) (sym e) (better-Weighed inst (lut (pext word hash)))
      | inr (e, others) ↦ absurd (
          others (submask_of hash inst word) (submask_of-Within hash inst word)
            (key-pext word matches))
    ]

    -- After one instruction.
    entered :
        (lut' : Lut F) × (enter_all pext hash size inst lut ≡ some lut')
        × Keeps lut lut'
        × ((word : ℕ) → bit_and word inst.mask ≡ inst.match → Weighed inst (lut' (pext word hash)))
        × ((P : Instruction F → Type 0) → P inst → Adds pext hash P lut lut')
    unfolding Keeps
    entered =
        let (lut', done, entries) = enter_all-Entries pext hash size fitting inst lut in
        (
          lut',
          done,
          Entries-Weighed lut' entries,
          Entries-own lut' entries,
          λ P p. Entries-Adds pext hash size fitting inst lut lut' P p entries,
        )

  -- The two tables have weighed an instruction under the key of each word that it matches.
  unfoldable pub Stored : Instruction F → Lut F → Lut F → Type 0
  Stored inst lut lut16 =
      (word : ℕ)
      → bit_and word inst.mask ≡ inst.match
      → (inst.size ≡ 2 → Weighed inst (lut16 (pext word hash_mask_16)))
        × (inst.size ≢ 2 → Weighed inst (lut (pext word hash_mask)))

  Stored-kept :
      (inst : Instruction F) (lut lut16 lut' lut16' : Lut F)
      → Keeps lut lut'
      → Keeps lut16 lut16'
      → Stored inst lut lut16
      → Stored inst lut' lut16'
  unfolding Stored Keeps
  Stored-kept inst lut lut16 lut' lut16' k k16 stored word matches = (
    λ short. k16 inst (pext word hash_mask_16) ((stored word matches).0 short),
    λ long. k inst (pext word hash_mask) ((stored word matches).1 long),
  )

  Keeps-trans : (a b c : Lut F) → Keeps a b → Keeps b c → Keeps a c
  unfolding Keeps
  Keeps-trans a b c k j x i weighed = j x i (k x i weighed)

  cons_Stored :
      (x : Instruction F) (rest : List (Instruction F)) (lut lut16 : Lut F)
      → Stored x lut lut16
      → ((inst : Instruction F) → Among inst rest → Stored inst lut lut16)
      → (inst : Instruction F) → Among inst (x ∷ rest)
      → Stored inst lut lut16
  unfolding Among
  cons_Stored x rest lut lut16 own others inst (inl here) =
      subst (λ (y : Instruction F). Stored y lut lut16) (sym here) own
  cons_Stored x rest lut lut16 own others inst (inr later) = others inst later

  -- The tables after an instruction, whichever it belongs to.
  one_entered :
      (inst : Instruction F) (rest : List (Instruction F)) (lut lut16 : Lut F)
      → (mid : Lut F) × (mid16 : Lut F) × (build_lut pext (inst ∷ rest) lut lut16
          ≡ build_lut pext rest mid mid16)
        × Keeps lut mid
        × Keeps lut16 mid16
        × Stored inst mid mid16
        × Adds pext hash_mask (λ b. (b ≡ inst) × (b.size ≢ 2)) lut mid
        × Adds pext hash_mask_16 (λ b. (b ≡ inst) × (b.size ≡ 2)) lut16 mid16
  unfolding build_lut Stored Keeps
  one_entered inst rest lut lut16 =
      let room : 2 ^ 22 ≡ 2 ^ popcount 32 hash_mask = unfold popcount in refl in
      let room16 : 2 ^ 16 ≡ 2 ^ popcount 32 hash_mask_16 = unfold popcount in refl in
      elim (Bool-cases (inst.size == 2)) [
        | inl short ↦
            let (mid16, done, kept, own, adds) =
              entered hash_mask_16 (2 ^ 16) (omega arith) room16 inst lut16 in
            (
              lut,
              mid16,
              rw (short, done) refl,
              λ x i weighed. weighed,
              kept,
              λ word matches. (λ e. own word matches, λ other. ground (arith, short, other)),
              Adds-nothing pext hash_mask (λ b. (b ≡ inst) × (b.size ≢ 2)) lut,
              adds (λ b. (b ≡ inst) × (b.size ≡ 2)) (refl, ground (arith, short)),
            )
        | inr long ↦
            let (mid, done, kept, own, adds) =
              entered hash_mask (2 ^ 22) (omega arith) room inst lut in
            (
              mid,
              lut16,
              rw (long, done) refl,
              kept,
              λ x i weighed. weighed,
              λ word matches. (λ e. ground (arith, long, e), λ other. own word matches),
              adds (λ b. (b ≡ inst) × (b.size ≢ 2)) (refl, λ e. ground (arith, long, e)),
              Adds-nothing pext hash_mask_16 (λ b. (b ≡ inst) × (b.size ≡ 2)) lut16,
            )
      ]

  pub build_lut-Stored :
      (l : List (Instruction F)) (lut lut16 : Lut F)
      → (lut' : Lut F) × (lut16' : Lut F) × (build_lut pext l lut lut16 ≡ some (lut', lut16'))
        × Keeps lut lut'
        × Keeps lut16 lut16'
        × ((inst : Instruction F) → Among inst l → Stored inst lut' lut16')
        × Adds pext hash_mask (λ b. Among b l × (b.size ≢ 2)) lut lut'
        × Adds pext hash_mask_16 (λ b. Among b l × (b.size ≡ 2)) lut16 lut16'
  build_lut-Stored [] lut lut16 =
      unfold build_lut Keeps Among in
      (
        lut,
        lut16,
        refl,
        (λ x i w. w),
        (λ x i w. w),
        (λ inst place. absurd place),
        Adds-nothing pext hash_mask (λ b. ⊥ × (b.size ≢ 2)) lut,
        Adds-nothing pext hash_mask_16 (λ b. ⊥ × (b.size ≡ 2)) lut16,
      )
  build_lut-Stored (inst ∷ rest) lut lut16 =
      let (mid, mid16, step, k, k16, own, new, new16) = one_entered inst rest lut lut16 in
      let (lut', lut16', done, j, j16, others, more, more16) = build_lut-Stored rest mid mid16 in
      (
        lut',
        lut16',
        step ∙ done,
        Keeps-trans lut mid lut' k j,
        Keeps-trans lut16 mid16 lut16' k16 j16,
        cons_Stored inst rest lut' lut16' (Stored-kept inst mid mid16 lut' lut16' j j16 own) others,
        Adds-both pext hash_mask (λ b. (b ≡ inst) × (b.size ≢ 2)) (λ b. Among b rest × (b.size ≢ 2))
            (λ b. Among b (inst ∷ rest) × (b.size ≢ 2)) lut mid lut'
            (λ b p. (Among-head b inst rest p.0, p.1)) (λ b p. (Among-tail b inst rest p.0, p.1))
            new more,
        Adds-both pext hash_mask_16 (λ b. (b ≡ inst) × (b.size ≡ 2))
            (λ b. Among b rest × (b.size ≡ 2)) (λ b. Among b (inst ∷ rest) × (b.size ≡ 2)) lut16
            mid16 lut16' (λ b p. (Among-head b inst rest p.0, p.1))
            (λ b p. (Among-tail b inst rest p.0, p.1)) new16 more16,
      )
