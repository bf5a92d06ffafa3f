-- ===== src/Decoder/Table/Origins.antt =====
-- Where an entry of a table comes from: a registered instruction under one of its own keys.
use riscv_em.Base.{
  ℕ, ◌<◌, ◌≡◌, refl, sym, ap, subst, ◌∙◌, bit_and, bit_or, ltb, Bool-cases, List, [], ◌∷◌, Option,
  none, some, inl, inr, ◌⊎◌,
}
use riscv_em.Decoder.{Instruction}
use riscv_em.Decoder.Table.{Lut, popcount, better, dont_care}
use riscv_em.Decoder.Table.Subsets.{Within}
use riscv_em.Decoder.Table.Rounds.{key, Entries}

module _ {F : Type 0} where
  -- The instructions with a place in a table.
  unfoldable pub Among : Instruction F → List (Instruction F) → Type 0
  Among inst [] = ⊥
  Among inst (x ∷ l) = (inst ≡ x) ⊎ Among inst l

  pub Among-head : (b x : Instruction F) (l : List (Instruction F)) → b ≡ x → Among b (x ∷ l)
  unfolding Among
  Among-head b x l e = inl e

  pub Among-tail : (b x : Instruction F) (l : List (Instruction F)) → Among b l → Among b (x ∷ l)
  unfolding Among
  Among-tail b x l place = inr place

  some_injective : (a b : Instruction F) → some a ≡ some b → a ≡ b
  some_injective a b e = ap (λ (o : Option (Instruction F)). elim o [ none ↦ a | some x ↦ x ]) e

  better-cases :
      (inst : Instruction F) (old : Option (Instruction F))
      → (better inst old ≡ inst) ⊎ (old ≡ some (better inst old))
  unfolding better
  better-cases inst none = inl refl
  better-cases inst (some old) =
      elim (Bool-cases (ltb (popcount 32 old.mask) (popcount 32 inst.mask))) [
        | inl more ↦ rw more (inl refl)
        | inr not_more ↦ rw not_more (inr refl)
      ]

module _ {F : Type 0} (pext : ℕ → ℕ → ℕ) (hash : ℕ) where
  -- The instruction is one that `P` allows, under a key that its pattern leaves open.
  unfoldable pub Placed : (Instruction F → Type 0) → Instruction F → ℕ → Type 0
  Placed P b i =
      P b
      × ((t : ℕ) × Within (dont_care hash b) t × (pext (bit_or (bit_and b.match hash) t) hash ≡ i))

  -- A table has no new entries but such ones.
  unfoldable pub Adds : (Instruction F → Type 0) → Lut F → Lut F → Type 0
  Adds P lut lut' = (i : ℕ) (b : Instruction F) → lut' i ≡ some b → (lut i ≡ some b) ⊎ Placed P b i

  pub Adds-nothing : (P : Instruction F → Type 0) (lut : Lut F) → Adds P lut lut
  unfolding Adds
  Adds-nothing P lut i b e = inl e

  pub Placed-weaken :
      (P Q : Instruction F → Type 0) (b : Instruction F) (i : ℕ)
      → ((x : Instruction F) → P x → Q x)
      → Placed P b i
      → Placed Q b i
  unfolding Placed
  Placed-weaken P Q b i weaken (p, place) = (weaken b p, place)

  pub Adds-both :
      (P Q R : Instruction F → Type 0) (a b c : Lut F)
      → ((x : Instruction F) → P x → R x)
      → ((x : Instruction F) → Q x → R x)
      → Adds P a b
      → Adds Q b c
      → Adds R a c
  unfolding Adds
  Adds-both P Q R a b c from_p from_q first second i x e = elim (second i x e) [
    | inl before ↦ elim (first i x before) [
      | inl earlier ↦ inl earlier
      | inr placed ↦ inr (Placed-weaken P R x i from_p placed)
    ]
    | inr placed ↦ inr (Placed-weaken Q R x i from_q placed)
  ]

  module _ (size : ℕ) (bounded : (x : ℕ) → pext x hash < size) (inst : Instruction F)
      (lut lut' : Lut F) where
    own_place :
        (P : Instruction F → Type 0) (t : ℕ)
        → P inst
        → Within (dont_care hash inst) t
        → Placed P inst (key pext hash size inst t)
    unfolding Placed
    own_place P t p w = (p, (t, w, refl))

    new_entry :
        (P : Instruction F → Type 0) (i t : ℕ) (b : Instruction F)
        → P inst
        → Within (dont_care hash inst) t
        → key pext hash size inst t ≡ i
        → better inst (lut i) ≡ b
        → (lut i ≡ some b) ⊎ Placed P b i
    new_entry P i t b p w at same = elim (better-cases inst (lut i)) [
      | inl own ↦
          let is_inst : inst ≡ b = sym own ∙ same in
          inr (
            subst (λ (x : Instruction F). Placed P x i) is_inst
              (subst (λ j. Placed P inst j) at (own_place P t p w)))
      | inr old ↦ inl (old ∙ ap some same)
    ]

    pub Entries-Adds :
        (P : Instruction F → Type 0)
        → P inst
        → Entries pext hash size bounded inst lut lut'
        → Adds P lut lut'
    unfolding Entries Adds
    Entries-Adds P p entries i b e = elim (entries i) [
      | inl (t, w, at, new) ↦
          new_entry P i t b p w at (some_injective (better inst (lut i)) b (sym new ∙ e))
      | inr (same, others) ↦ inl (sym same ∙ e)
    ]
