-- ===== src/Decoder/Table/Keys.antt =====
-- A word that matches an instruction has one of the keys that the instruction is entered under.
use riscv_em.Base.{
  ℕ, ◌-◌, ◌^◌, ◌≤◌, ◌<◌, ◌≡◌, ◌∙◌, ◌⊎◌, inl, inr, ap, sym, subst, bit_and, bit_or, not32, min, max,
  arith,
}
use riscv_em.Base.Bits.{
  bit, bit-lt, bit-bit_and, bit-bit_or, bit-complement, bit_and-lt, bit_or-lt, eq_of_bits,
}
use riscv_em.Decoder.{Instruction}
use riscv_em.Decoder.Table.{dont_care}
use riscv_em.Decoder.Table.Subsets.{Within}

-- The part of a word outside of the mask.
unfoldable pub submask_of : {F : Type 0} → ℕ → Instruction F → ℕ → ℕ
submask_of hash inst word = bit_and word (dont_care hash inst)

bit-dont_care :
    {F : Type 0} (hash : ℕ) (inst : Instruction F) (k : ℕ)
    → hash < 2 ^ 32
    → k < 32
    → bit k (dont_care hash inst) ≡ min (bit k hash) (1 - min (bit k inst.mask) (bit k hash))
unfolding dont_care
bit-dont_care hash inst k small below = ground (
  arith,
  bit-bit_and k hash (not32 (bit_and inst.mask hash)),
  bit-complement 32 k (bit_and inst.mask hash) (bit_and-lt 32 inst.mask hash small) below,
  bit-bit_and k inst.mask hash,
)

-- Three bits that agree as a match does.
joined :
    (w m h : ℕ)
    → w < 2
    → m < 2
    → h < 2
    → max (min (min w m) h) (min w (min h (1 - min m h))) ≡ min w h
joined w m h bw bm bh = omega arith

dont_care-lt : {F : Type 0} (hash : ℕ) (inst : Instruction F) → dont_care hash inst < 2 ^ 32
unfolding dont_care
dont_care-lt hash inst = bit_and-lt 32 hash (not32 (bit_and inst.mask hash)) (omega arith)

bit-matched :
    {F : Type 0} (hash : ℕ) (inst : Instruction F) (word k : ℕ)
    → hash < 2 ^ 32
    → bit_and word inst.mask ≡ inst.match
    → k < 32
    → bit k (bit_or (bit_and inst.match hash) (submask_of hash inst word))
      ≡ bit k (bit_and word hash)
unfolding submask_of
bit-matched hash inst word k small matches below =
    let matched : bit k inst.match ≡ min (bit k word) (bit k inst.mask) =
      ap (bit k) (sym matches) ∙ bit-bit_and k word inst.mask in
    rw
      (
        bit-bit_or k (bit_and inst.match hash) (bit_and word (dont_care hash inst)),
        bit-bit_and k inst.match hash,
        bit-bit_and k word (dont_care hash inst),
        bit-dont_care hash inst k small below,
        bit-bit_and k word hash,
        matched,
      )
      (joined (bit k word) (bit k inst.mask) (bit k hash) (bit-lt k word) (bit-lt k inst.mask)
        (bit-lt k hash))

-- The match together with the word's own submask is the word, as far as the table looks at it.
pub word_key :
    {F : Type 0} (hash : ℕ) (inst : Instruction F) (word : ℕ)
    → hash < 2 ^ 32
    → bit_and word inst.mask ≡ inst.match
    → bit_or (bit_and inst.match hash) (submask_of hash inst word) ≡ bit_and word hash
word_key hash inst word small matches =
    eq_of_bits 32 (bit_or (bit_and inst.match hash) (submask_of hash inst word)) (bit_and word hash)
      (bit_or-lt 32 (bit_and inst.match hash) (submask_of hash inst word)
        (bit_and-lt 32 inst.match hash small)
        (unfold submask_of in bit_and-lt 32 word (dont_care hash inst) (dont_care-lt hash inst)))
      (bit_and-lt 32 word hash small) (λ k below. bit-matched hash inst word k small matches below)

pub submask_of-Within :
    {F : Type 0} (hash : ℕ) (inst : Instruction F) (word : ℕ)
    → Within (dont_care hash inst) (submask_of hash inst word)
unfolding submask_of
submask_of-Within hash inst word =
    let d = dont_care hash inst in
    eq_of_bits 32 (bit_and (bit_and word d) d) (bit_and word d)
      (bit_and-lt 32 (bit_and word d) d (dont_care-lt hash inst))
      (bit_and-lt 32 word d (dont_care-lt hash inst))
      (λ k below. omega (arith, bit-bit_and k (bit_and word d) d, bit-bit_and k word d))

-- One bit of a word, of the masks of two instructions, of the second one's match, of the table's
-- mask and of a submask.
shared_bit :
    (w ma mb xb h t : ℕ)
    → w < 2
    → ma < 2
    → h < 2
    → mb < 2
    → xb ≤ mb
    → t ≤ min h (1 - min mb h)
    → min w h ≡ min (max (min xb h) t) h
    → min (min (min w ma) mb) h ≡ min (min xb ma) h
shared_bit w ma mb xb h t bw bm bh bb le sub same =
    let place : (h ≡ 0) ⊎ ((h ≡ 1) × (mb ≡ 0)) ⊎ ((h ≡ 1) × (mb ≡ 1)) = omega arith in
    elim place [
      | inl none_read ↦ rw none_read (omega arith)
      | inr (inl (read, free)) ↦ rw (read, free) (omega arith)
      | inr (inr (read, fixed)) ↦ shared_fixed w ma mb xb h t bw bm read fixed le sub same
    ]
  where
    shared_fixed :
        (w ma mb xb h t : ℕ)
        → w < 2
        → ma < 2
        → h ≡ 1
        → mb ≡ 1
        → xb ≤ mb
        → t ≤ min h (1 - min mb h)
        → min w h ≡ min (max (min xb h) t) h
        → min (min (min w ma) mb) h ≡ min (min xb ma) h
    shared_fixed w ma mb xb h t bw bm read fixed le sub same =
        let gone : t ≡ 0 = omega arith in
        let equal : w ≡ xb = omega arith in rw (equal, read, fixed) (omega arith)

fixed_bit :
    (w mb xb h t : ℕ)
    → w < 2
    → h < 2
    → mb ≤ h
    → xb ≤ mb
    → t ≤ min h (1 - min mb h)
    → min w h ≡ min (max (min xb h) t) h
    → min w mb ≡ xb
fixed_bit w mb xb h t bw bh inside le sub same = omega arith

Within-bit : (d s k : ℕ) → Within d s → bit k s ≤ bit k d
Within-bit d s k w =
    let same : bit k (bit_and s d) ≡ bit k s = ap (bit k) w in omega (arith, bit-bit_and k s d)

module _ {F : Type 0} (hash : ℕ) (small : hash < 2 ^ 32) (b : Instruction F) (word t : ℕ)
    (within : Within (dont_care hash b) t)
    (same_key : bit_and word hash ≡ bit_and (bit_or (bit_and b.match hash) t) hash)
    (inside : Within b.mask b.match) where
  key_bit :
      (k : ℕ)
      → min (bit k word) (bit k hash)
        ≡ min (max (min (bit k b.match) (bit k hash)) (bit k t)) (bit k hash)
  key_bit k =
      let e : bit k (bit_and word hash) ≡ bit k (bit_and (bit_or (bit_and b.match hash) t) hash) =
        ap (bit k) same_key in
      omega (
        arith,
        bit-bit_and k word hash,
        bit-bit_and k (bit_or (bit_and b.match hash) t) hash,
        bit-bit_or k (bit_and b.match hash) t,
        bit-bit_and k b.match hash,
      )

  sub_bit : (k : ℕ) → k < 32 → bit k t ≤ min (bit k hash) (1 - min (bit k b.mask) (bit k hash))
  sub_bit k below =
      omega (arith, Within-bit (dont_care hash b) t k within, bit-dont_care hash b k small below)

  -- If the word matches `a` and has a key of `b`, then some word has a key of both.
  pub key_shared :
      (a : Instruction F)
      → bit_and word a.mask ≡ a.match
      → bit_and (bit_and a.match b.mask) hash ≡ bit_and (bit_and b.match a.mask) hash
  key_shared a matches =
      eq_of_bits 32 (bit_and (bit_and a.match b.mask) hash) (bit_and (bit_and b.match a.mask) hash)
        (bit_and-lt 32 (bit_and a.match b.mask) hash small)
        (bit_and-lt 32 (bit_and b.match a.mask) hash small)
        (λ k below.
          let matched : bit k (bit_and word a.mask) ≡ bit k a.match = ap (bit k) matches in
          omega (
            arith,
            matched,
            bit-bit_and k word a.mask,
            bit-bit_and k (bit_and a.match b.mask) hash,
            bit-bit_and k a.match b.mask,
            bit-bit_and k (bit_and b.match a.mask) hash,
            bit-bit_and k b.match a.mask,
            shared_bit (bit k word) (bit k a.mask) (bit k b.mask) (bit k b.match) (bit k hash)
                (bit k t) (bit-lt k word) (bit-lt k a.mask) (bit-lt k hash) (bit-lt k b.mask)
                (Within-bit b.mask b.match k inside) (sub_bit k below) (key_bit k),
          ))

  -- If the table looks at all the bits that `b` fixes, then the word matches `b`.
  pub key_matches : b.mask < 2 ^ 32 → Within hash b.mask → bit_and word b.mask ≡ b.match
  key_matches mask_small covered =
      eq_of_bits 32 (bit_and word b.mask) b.match (bit_and-lt 32 word b.mask mask_small)
        (subst (λ (x : ℕ). x < 2 ^ 32) inside (bit_and-lt 32 b.match b.mask mask_small))
        (λ k below. omega (
          arith,
          bit-bit_and k word b.mask,
          fixed_bit (bit k word) (bit k b.mask) (bit k b.match) (bit k hash) (bit k t)
              (bit-lt k word) (bit-lt k hash) (Within-bit hash b.mask k covered)
              (Within-bit b.mask b.match k inside) (sub_bit k below) (key_bit k),
        ))
