-- ===== src/Decoder.antt =====
-- src/decode.cpp and `InstructionDecoder` of include/decode.hpp: patterns, lookup tables and the
-- cache of decoded instructions. `F` is the type of the pointers to the instructions' functions;
-- `_pext_u32`, a processor's instruction, is the argument `pext` of what uses it.
pub mod Table
pub mod Op
pub mod Instructions
pub mod Cache
pub mod Patterns
use riscv_em.Base.{
  ℕ, zero, suc, ◌+◌, ◌-◌, ◌*◌, ◌/◌, ◌^◌, bit_or, ◌==◌, if◌then◌else◌, Bool, true, false, List, [],
  ◌∷◌, ◌++◌, Option, none, some, ◌||◌,
}
use Prim.Native.Char.{Char, code}
use Prim.Native.String.{String, len, char_at}
use riscv_em.Isa.Immediates.{imm_i}

pub record Instruction (F : Type 0) : Type 0 where
  pub mask : ℕ
  pub match : ℕ
  pub func : F
  pub imm_decode_func : ℕ → ℕ
  pub size : ℕ

abbrev pub hash_mask : ℕ
hash_mask = 0xfff0707f

abbrev pub hash_mask_16 : ℕ
hash_mask_16 = 0x0000ffff

-- A pattern is the list of its characters, the last one first: that one stands for bit 0.
pub data Letter : Type 0 where
  one nil any : Letter

-- The loop of `register_instr` from bit `i` on: the mask, and the match.
pub pattern_mask : List Letter → ℕ → ℕ → ℕ
pattern_mask [] i acc = acc
pattern_mask (Letter.one ∷ cs) i acc = pattern_mask cs (i + 1) (bit_or acc (2 ^ i))
pattern_mask (Letter.nil ∷ cs) i acc = pattern_mask cs (i + 1) (bit_or acc (2 ^ i))
pattern_mask (Letter.any ∷ cs) i acc = pattern_mask cs (i + 1) acc

pub pattern_match : List Letter → ℕ → ℕ → ℕ
pattern_match [] i acc = acc
pattern_match (Letter.one ∷ cs) i acc = pattern_match cs (i + 1) (bit_or acc (2 ^ i))
pattern_match (_ ∷ cs) i acc = pattern_match cs (i + 1) acc

-- '1', '0', and any other character.
abbrev pub letter_of : Char → Letter
letter_of c = if code c == 49 then Letter.one else if code c == 48 then Letter.nil else Letter.any

-- The first `n` characters of a text, the last of them first.
pub letters : ℕ → String → List Letter
letters zero mask = []
letters (suc n) mask = letter_of (char_at mask n) ∷ letters n mask

pub record Registry (F : Type 0) : Type 0 where
  pub instructions : List (Instruction F)
  pub global_hash_mask : ℕ

module _ {F : Type 0} where
  -- What is registered; `none` for the immediate's function is a null pointer.
  pub registered : String → F → Option (ℕ → ℕ) → Instruction F
  registered mask func imm =
      let pattern = letters (len mask) mask in
      record {
        mask = pattern_mask pattern 0 0;
        match = pattern_match pattern 0 0;
        func = func;
        imm_decode_func = elim imm [ none ↦ imm_i | some f ↦ f ];
        size = len mask / 8;
      }

  -- `none` is the failed assertion on the pattern's length.
  pub register_instr : String → F → Option (ℕ → ℕ) → Registry F → Option (Registry F)
  register_instr mask func imm r =
      let inst = registered mask func imm in
      if (len mask == 16) || (len mask == 32)
      then some (record {
        instructions = r.instructions ++ (inst ∷ []);
        global_hash_mask = bit_or r.global_hash_mask inst.mask;
      })
      else none
