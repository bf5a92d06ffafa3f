-- ===== src/Decoder/Instructions/Unique.antt =====
-- Which registered instructions a word can match at once.
use riscv_em.Base.{
  ℕ, ◌^◌, ◌<◌, ◌≡◌, ◌≢◌, refl, sym, ◌∙◌, ◌⊎◌, inl, inr, bit_and, ◌==◌, if◌then◌else◌, Bool, true,
  not, ltb, ◌&&◌, ◌||◌, List, [], ◌∷◌, ◌++◌, Option, none, some, arith,
}
use riscv_em.Decoder.{
  Instruction, Registry, registered, register_instr, hash_mask, hash_mask_16, pattern_mask,
  pattern_match, letters,
}
use riscv_em.Decoder.Op.{Op}
use riscv_em.Decoder.Table.{popcount}
use riscv_em.Decoder.Table.Origins.{Among}
use riscv_em.Decoder.Instructions.{
  Row, init_rv64i, init_rv64m, init_rv64a, init_rv64c, init_priv, init_zicsr, init_zifencei,
  init_zba, init_zbb, init_zbc, init_zbs, init_zicboz, run_inits, inits, nothing_registered,
  register_rows, rv64i_rows, rv64m_rows, rv64a_rows, rv64c_rows, priv_rows, zicsr_rows,
  zifencei_rows, zba_rows, zbb_rows, zbc_rows, zbs_rows, zicboz_rows,
}

-- Some word has a key of both.
abbrev share_key : ℕ → Instruction Op → Instruction Op → Bool
share_key hash a b = bit_and (bit_and a.match b.mask) hash == bit_and (bit_and b.match a.mask) hash

-- Of the two, one is clearly the more specific, or no word is under a key of both.
abbrev told_apart : Instruction Op → Instruction Op → Bool
told_apart a b =
    if a.size == 2
    then not (b.size == 2)
      || (not (share_key hash_mask_16 a b) || not (popcount 32 a.mask == popcount 32 b.mask))
    else (b.size == 2) || not (share_key hash_mask a b)

abbrev from_all : Instruction Op → List (Instruction Op) → Bool
from_all a [] = true
from_all a (b ∷ l) = told_apart a b && from_all a l

abbrev all_told_apart : List (Instruction Op) → Bool
all_told_apart [] = true
all_told_apart (a ∷ l) = from_all a l && all_told_apart l

abbrev entries : List Row → List (Instruction Op)
entries [] = []
entries (x ∷ rows) = registered x.mask x.func x.imm ∷ entries rows

abbrev all_rows : List Row
all_rows =
    rv64i_rows ++ rv64m_rows ++ rv64a_rows ++ rv64c_rows ++ priv_rows ++ zicsr_rows ++ zifencei_rows
    ++ zba_rows ++ zbb_rows ++ zbc_rows ++ zbs_rows ++ zicboz_rows

abbrev pub all_entries : List (Instruction Op)
all_entries = entries all_rows

-- The mask has 32 bits, and 16 for a short instruction, and the match lies within it.
abbrev well_formed : Instruction Op → Bool
well_formed a =
    (bit_and a.match a.mask == a.match)
    && (ltb a.mask (2 ^ 32) && (not (a.size == 2) || (bit_and a.mask hash_mask_16 == a.mask)))

abbrev all_well_formed : List (Instruction Op) → Bool
all_well_formed [] = true
all_well_formed (a ∷ l) = well_formed a && all_well_formed l

entries_told_apart : all_told_apart all_entries ≡ true
unfolding popcount registered pattern_mask pattern_match letters
entries_told_apart = refl

entries_well_formed : all_well_formed all_entries ≡ true
unfolding registered pattern_mask pattern_match letters
entries_well_formed = refl

registry_or : Option (Registry Op) → Registry Op
registry_or none = nothing_registered
registry_or (some r) = r

-- All assertions hold, and the list has the instructions in the order of their registration.
pub run_inits-all_entries :
    (r : Registry Op) × (run_inits inits nothing_registered ≡ some r)
    × (r.instructions ≡ all_entries)
unfolding run_inits register_rows register_instr registry_or init_rv64i init_rv64m init_rv64a
    init_rv64c init_priv init_zicsr init_zifencei init_zba init_zbb init_zbc init_zbs init_zicboz
run_inits-all_entries = (registry_or (run_inits inits nothing_registered), refl, refl)

and_left : (x y : Bool) → (x && y) ≡ true → x ≡ true
and_left x y e = ground arith

and_right : (x y : Bool) → (x && y) ≡ true → y ≡ true
and_right x y e = ground arith

from_all-Among :
    (a b : Instruction Op) (l : List (Instruction Op))
    → from_all a l ≡ true
    → Among b l
    → told_apart a b ≡ true
unfolding Among
from_all-Among a b [] every place = absurd place
from_all-Among a b (x ∷ l) every (inl here) =
    rw here (and_left (told_apart a x) (from_all a l) every)
from_all-Among a b (x ∷ l) every (inr later) =
    from_all-Among a b l (and_right (told_apart a x) (from_all a l) every) later

all_told_apart-Among :
    (a b : Instruction Op) (l : List (Instruction Op))
    → all_told_apart l ≡ true
    → Among a l
    → Among b l
    → (a ≡ b) ⊎ (told_apart a b ≡ true) ⊎ (told_apart b a ≡ true)
unfolding Among
all_told_apart-Among a b [] every p q = absurd p
all_told_apart-Among a b (x ∷ l) every (inl p) (inl q) = inl (p ∙ sym q)
all_told_apart-Among a b (x ∷ l) every (inl p) (inr q) =
    inr (inl (rw p (from_all-Among x b l (and_left (from_all x l) (all_told_apart l) every) q)))
all_told_apart-Among a b (x ∷ l) every (inr p) (inl q) =
    inr (inr (rw q (from_all-Among x a l (and_left (from_all x l) (all_told_apart l) every) p)))
all_told_apart-Among a b (x ∷ l) every (inr p) (inr q) =
    all_told_apart-Among a b l (and_right (from_all x l) (all_told_apart l) every) p q

all_well_formed-Among :
    (a : Instruction Op) (l : List (Instruction Op))
    → all_well_formed l ≡ true
    → Among a l
    → well_formed a ≡ true
unfolding Among
all_well_formed-Among a [] every place = absurd place
all_well_formed-Among a (x ∷ l) every (inl here) =
    rw here (and_left (well_formed x) (all_well_formed l) every)
all_well_formed-Among a (x ∷ l) every (inr later) =
    all_well_formed-Among a l (and_right (well_formed x) (all_well_formed l) every) later

module _ (a b : Instruction Op) (place : Among a all_entries) (other : Among b all_entries) where
  apart : (a ≡ b) ⊎ (told_apart a b ≡ true) ⊎ (told_apart b a ≡ true)
  apart = all_told_apart-Among a b all_entries entries_told_apart place other

  -- Two long instructions under one key are the same.
  pub long_same :
      a.size ≢ 2
      → b.size ≢ 2
      → bit_and (bit_and a.match b.mask) hash_mask ≡ bit_and (bit_and b.match a.mask) hash_mask
      → a ≡ b
  long_same la lb shared = elim apart [
    | inl same ↦ same
    | inr (inl t) ↦ absurd (ground (arith, t, la, lb, shared))
    | inr (inr t) ↦ absurd (ground (arith, t, la, lb, shared))
  ]

  -- Of two short ones one fixes more bits.
  pub short_same :
      a.size ≡ 2
      → b.size ≡ 2
      → bit_and (bit_and a.match b.mask) hash_mask_16
        ≡ bit_and (bit_and b.match a.mask) hash_mask_16
      → (a ≡ b) ⊎ (popcount 32 a.mask ≢ popcount 32 b.mask)
  short_same la lb shared = elim apart [
    | inl same ↦ inl same
    | inr (inl t) ↦ inr (λ e. ground (arith, t, la, lb, shared, e))
    | inr (inr t) ↦ inr (λ e. ground (arith, t, la, lb, shared, e))
  ]

module _ (a : Instruction Op) (place : Among a all_entries) where
  formed : well_formed a ≡ true
  formed = all_well_formed-Among a all_entries entries_well_formed place

  pub match-Within : bit_and a.match a.mask ≡ a.match
  match-Within = ground (arith, formed)

  pub mask-lt : a.mask < 2 ^ 32
  mask-lt = ground (arith, formed)

  pub short_mask-Within : a.size ≡ 2 → bit_and a.mask hash_mask_16 ≡ a.mask
  short_mask-Within short = ground (arith, formed, short)
