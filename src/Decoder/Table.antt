-- ===== src/Decoder/Table.antt =====
-- `build_lut` of src/decode.cpp: each instruction is entered under every key that its pattern leaves
-- open, and of two instructions under one key the one with more fixed bits stays.
pub mod Subsets
pub mod Rounds
pub mod Keys
pub mod Origins
pub mod Built
use riscv_em.Base.{
  ℕ, zero, suc, ◌+◌, ◌-◌, ◌*◌, ◌/◌, ◌%◌, ◌^◌, bit_and, bit_or, u32, not32, ltb, leb, ◌==◌,
  if◌then◌else◌, Bool, true, false, List, [], ◌∷◌, Option, none, some,
}
use riscv_em.Hart.{update}
use riscv_em.Decoder.{Instruction, hash_mask, hash_mask_16}

-- `sub_mask = (sub_mask - dont_care_bits) & dont_care_bits`
unfoldable pub next_sub_mask : ℕ → ℕ → ℕ
next_sub_mask dont_care_bits sub_mask =
    bit_and (u32 (sub_mask + 2 ^ 32 - dont_care_bits)) dont_care_bits

-- The `do … while (sub_mask != 0)` loop over a state, with `fuel` rounds at most; `none` is a loop
-- that has not ended. A body that gives nothing has met `continue`, which leaves `sub_mask` alone.
unfoldable pub for_sub_masks : {S : Type 0} → ℕ → ℕ → (ℕ → S → Option S) → ℕ → S → Option S
for_sub_masks zero dont_care_bits body sub_mask s = none
for_sub_masks (suc fuel) dont_care_bits body sub_mask s = elim (body sub_mask s) [
  | some after ↦ elim (next_sub_mask dont_care_bits sub_mask == 0) [
    | true ↦ some after
    | false ↦ for_sub_masks fuel dont_care_bits body (next_sub_mask dont_care_bits sub_mask) after
  ]
  | none ↦ elim (sub_mask == 0) [
    | true ↦ some s
    | false ↦ for_sub_masks fuel dont_care_bits body sub_mask s
  ]
]

-- `__builtin_popcount` on a word of `w` bits.
unfoldable pub popcount : ℕ → ℕ → ℕ
popcount zero x = 0
popcount (suc w) x = x % 2 + popcount w (x / 2)

-- A table: what is found under each index.
abbrev pub Lut : Type 0 → Type 0
Lut F = ℕ → Option (Instruction F)

module _ {F : Type 0} where
  -- The instruction that stays under an index.
  unfoldable pub better : Instruction F → Option (Instruction F) → Instruction F
  better inst none = inst
  better inst (some old) = if ltb (popcount 32 old.mask) (popcount 32 inst.mask) then inst else old

  unfoldable pub dont_care : ℕ → Instruction F → ℕ
  dont_care hash inst = bit_and hash (not32 (bit_and inst.mask hash))

  abbrev pub put : ℕ → Instruction F → Lut F → Lut F
  put idx inst lut i = if i == idx then some inst else lut i

module _ {F : Type 0} (pext : ℕ → ℕ → ℕ) where
  -- One round, for a table of `size` entries that is keyed by the bits of `hash`.
  unfoldable pub enter : ℕ → ℕ → Instruction F → ℕ → Lut F → Option (Lut F)
  enter hash size inst sub_mask lut =
      let lut_idx = pext (bit_or (bit_and inst.match hash) sub_mask) hash in
      if leb size lut_idx then none else some (put lut_idx (better inst (lut lut_idx)) lut)

  -- The rounds of one instruction. A word has 32 bits, so there are 2 ^ 32 values of `sub_mask`.
  unfoldable pub enter_all : ℕ → ℕ → Instruction F → Lut F → Option (Lut F)
  enter_all hash size inst lut =
      for_sub_masks (2 ^ 32) (dont_care hash inst) (enter hash size inst) 0 lut

  -- `lut` and `lut16`, in this order.
  pub build_lut : List (Instruction F) → Lut F → Lut F → Option (Lut F × Lut F)
  build_lut [] lut lut16 = some (lut, lut16)
  build_lut (inst ∷ rest) lut lut16 =
      if inst.size == 2
      then elim (enter_all hash_mask_16 (2 ^ 16) inst lut16) [
        | none ↦ none
        | some t ↦ build_lut rest lut t
      ]
      else elim (enter_all hash_mask (2 ^ 22) inst lut) [
        | none ↦ none
        | some t ↦ build_lut rest t lut16
      ]
