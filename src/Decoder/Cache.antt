-- ===== src/Decoder/Cache.antt =====
-- `decode_inst` and `decode_inst_slow`: the cache of decoded instructions, of two ways each.
pub mod Sound
pub mod Registered
pub mod Tests
use riscv_em.Base.{
  ℕ, ◌+◌, ◌-◌, ◌*◌, ◌/◌, ◌%◌, ◌^◌, bit_and, ◌==◌, if◌then◌else◌, Bool, true, false, not, ◌&&◌,
  Option, none, some,
}
use riscv_em.Traps.{ExecReturn}
use riscv_em.Hart.{Hart}
use riscv_em.Isa.{InstructionData, next}
use riscv_em.Isa.Immediates.{d_rd, d_rs1, d_rs2}
use riscv_em.Decoder.{Instruction, hash_mask, hash_mask_16}
use riscv_em.Decoder.Table.{Lut}

pub record InstructionCache (F : Type 0) : Type 0 where
  pub pc : ℕ
  pub inst_raw : ℕ
  pub inst : Option (Instruction F)
  pub decoded : InstructionData
  pub valid : Bool

-- The two ways; `victim` is 0 or 1.
pub record CacheSet (F : Type 0) : Type 0 where
  pub way0 : InstructionCache F
  pub way1 : InstructionCache F
  pub victim : Bool

-- The array of sets, by index.
abbrev pub Cache : Type 0 → Type 0
Cache F = ℕ → CacheSet F

-- `(pc >> 2) & (CACHE_SIZE - 1)`
abbrev pub set_index : ℕ → ℕ
set_index pc = bit_and (pc / 2 ^ 2) (65536 - 1)

module _ {F : Type 0} where
  -- The way that matches the address and the word.
  abbrev pub hit : ℕ → ℕ → InstructionCache F → Bool
  hit pc inst e = e.valid && (e.pc == pc && e.inst_raw == inst)

  -- `dinst != nullptr && (inst & dinst->mask) == dinst->match`
  abbrev pub fits : ℕ → Option (Instruction F) → Bool
  fits inst none = false
  fits inst (some dinst) = bit_and inst dinst.mask == dinst.match

  -- The imm of the matching instruction, 0 without one.
  abbrev pub immediate : ℕ → Option (Instruction F) → ℕ
  immediate inst none = 0
  immediate inst (some dinst) = if fits inst (some dinst) then dinst.imm_decode_func inst else 0

module _ {F : Type 0} (pext : ℕ → ℕ → ℕ) (lut lut16 : Lut F) where
  -- The instruction under the word's key: in the table of the short ones first, for a short word.
  unfoldable pub find : ℕ → Option (Instruction F)
  find inst =
      let short =
        if not (bit_and inst 0x3 == 0x3)
        then lut16 (pext (bit_and inst 0xffff) hash_mask_16)
        else none in
      elim short [ some dinst ↦ some dinst | none ↦ lut (pext inst hash_mask) ]

  -- The entry that is written for an address and a word.
  pub fresh : ℕ → ℕ → InstructionCache F
  fresh pc inst =
      let dinst = find inst in
      record {
        pc = pc;
        inst_raw = inst;
        inst = if fits inst dinst then dinst else none;
        decoded = record {
          inst = inst;
          rs1 = d_rs1 inst;
          rs2 = d_rs2 inst;
          rd = d_rd inst;
          imm = immediate inst dinst;
        };
        valid = fits inst dinst;
      }

  pub decode_inst_slow : ℕ → ℕ → Cache F → InstructionCache F × Cache F
  decode_inst_slow pc inst cache =
      let idx = set_index pc in
      let old = cache idx in
      let entry = fresh pc inst in
      let new =
        if old.victim
        then record old { way1 = entry; victim = false }
        else record old { way0 = entry; victim = true } in
      (entry, λ i. if i == idx then new else cache i)

  pub decode_inst : ℕ → ℕ → Cache F → InstructionCache F × Cache F
  decode_inst pc inst cache =
      let set = cache (set_index pc) in
      if hit pc inst set.way0
      then (set.way0, cache)
      else if hit pc inst set.way1
      then (set.way1, cache)
      else decode_inst_slow pc inst cache

-- `exec_FENCE_I` of src/sets/zifencei.cpp: no way of any set stays valid.
pub exec_fence_i : {F : Type 0} → InstructionData → Hart → Cache F → ExecReturn × Hart × Cache F
exec_fence_i d h cache = (
  next,
  h,
  λ i.
      let set = cache i in
      record {
        way0 = record set.way0 { valid = false };
        way1 = record set.way1 { valid = false };
        victim = false;
      },
)
