-- ===== src/Decoder/Cache/Registered.antt =====
-- From the registered instructions to what `decode_inst_slow` finds for a word.
use riscv_em.Base.{
  ℕ, zero, suc, ◌/◌, ◌%◌, ◌^◌, ◌<◌, ◌≡◌, ◌≢◌, refl, ap, ◌∙◌, bit_and, bit_or, ◌||◌, ◌==◌, true,
  false, List, Option, none, some, inl, inr, ◌⊎◌, arith, ◌↔◌, ◌++◌, [], ◌∷◌,
}
use riscv_em.Decoder.{
  Instruction, hash_mask, hash_mask_16, Registry, registered, register_instr, letters, Letter,
  letter_of,
}
use Prim.Native.String.{String, len, char_at}
use Prim.Native.Char.{Char, code}
use riscv_em.Decoder.Patterns.{Agrees, pattern-Agrees}
use riscv_em.Decoder.Table.{Lut, popcount, build_lut}
use riscv_em.Decoder.Table.Origins.{Among}
use riscv_em.Decoder.Table.Built.{Weighed, Stored, build_lut-Stored}
use riscv_em.Decoder.Cache.{find}

-- A bit fits a character: it is 1 for '1', which is character 49, 0 for '0', which is character 48,
-- and anything for every other character.
unfoldable pub BitFits : Char → ℕ → Type 0
BitFits c b =
    ((code c ≡ 49) × (b ≡ 1)) ⊎ ((code c ≡ 48) × (b ≡ 0)) ⊎ ((code c ≢ 49) × (code c ≢ 48))

-- The first `n` characters of a text fit the lowest `n` bits of a word, the last character bit 0.
unfoldable pub Fits : ℕ → String → ℕ → Type 0
Fits zero mask word = Unit
Fits (suc n) mask word = BitFits (char_at mask n) (word % 2) × Fits n mask (word / 2)

Agrees-cons :
    (l : Letter) (cs : List Letter) (word : ℕ)
    → Agrees (l ∷ cs) word ↔ (
        (((l ≡ Letter.one) × (word % 2 ≡ 1))
          ⊎ ((l ≡ Letter.nil) × (word % 2 ≡ 0))
          ⊎ (l ≡ Letter.any))
        × Agrees cs (word / 2))
unfolding Agrees
Agrees-cons Letter.one cs word = ground arith
Agrees-cons Letter.nil cs word = ground arith
Agrees-cons Letter.any cs word = ground arith

letter-BitFits :
    (c : Char) (b : ℕ)
    → (((letter_of c ≡ Letter.one) × (b ≡ 1))
        ⊎ ((letter_of c ≡ Letter.nil) × (b ≡ 0))
        ⊎ (letter_of c ≡ Letter.any))
      ↔ BitFits c b
unfolding BitFits
letter-BitFits c b = ground arith

letters-Fits : (n : ℕ) (mask : String) (word : ℕ) → Agrees (letters n mask) word ↔ Fits n mask word
unfolding letters Fits Agrees
letters-Fits zero mask word = (λ u. u, λ u. u)
letters-Fits (suc n) mask word = ground (
  arith,
  Agrees-cons (letter_of (char_at mask n)) (letters n mask) word,
  letter-BitFits (char_at mask n) (word % 2),
  letters-Fits n mask (word / 2),
)

-- A pattern of 16 or 32 characters is registered at the end of the list, and a word matches the new
-- instruction exactly if its bits fit the pattern's characters: the last character stands for bit 0,
-- '1' wants a set bit, '0' a clear one, and every other character takes both.
pub register_instr-Agrees :
    {F : Type 0} (mask : String) (func : F) (imm : Option (ℕ → ℕ)) (r : Registry F)
    → (len mask ≡ 16) ⊎ (len mask ≡ 32)
    → (r' : Registry F) × (inst : Instruction F) × (register_instr mask func imm r ≡ some r')
      × (r'.instructions ≡ r.instructions ++ (inst ∷ []))
      × (inst.func ≡ func)
      × ((word : ℕ) → (bit_and word inst.mask ≡ inst.match) ↔ Fits (len mask) mask word)
unfolding register_instr registered
register_instr-Agrees mask func imm r sized =
    let inst = registered mask func imm in
    let fits : ((len mask == 16) || (len mask == 32)) ≡ true = ground (arith, sized) in
    (
      record {
        instructions = r.instructions ++ (inst ∷ []);
        global_hash_mask = bit_or r.global_hash_mask inst.mask;
      },
      inst,
      rw fits refl,
      refl,
      refl,
      λ word.
          let (agrees, matches) = pattern-Agrees (letters (len mask) mask) word in
          let (fit, unfit) = letters-Fits (len mask) mask word in
          (λ e. fit (agrees e), λ f. matches (unfit f)),
    )

module _ {F : Type 0} where
  -- The word is of the instruction's size.
  unfoldable pub OfSize : Instruction F → ℕ → Type 0
  OfSize inst word =
      ((inst.size ≡ 2) × (bit_and word 0x3 ≢ 0x3)) ⊎ ((inst.size ≢ 2) × (bit_and word 0x3 ≡ 0x3))

module _ {F : Type 0} (pext : ℕ → ℕ → ℕ) (bounded : (x m : ℕ) → pext x m < 2 ^ popcount 32 m)
    (selects : (x m : ℕ) → pext (bit_and x m) m ≡ pext x m) where
  find-short :
      (lut lut16 : Lut F) (inst : Instruction F) (word : ℕ)
      → bit_and word 0x3 ≢ 0x3
      → Weighed inst (lut16 (pext word hash_mask_16))
      → Weighed inst (find pext lut lut16 word)
  unfolding find Weighed
  find-short lut lut16 inst word short (best, e, more) =
      let test : (bit_and word 0x3 == 0x3) ≡ false = ground (arith, short) in
      let entry : lut16 (pext (bit_and word 0xffff) hash_mask_16) ≡ some best =
        ap lut16 (selects word hash_mask_16) ∙ e in
      (best, rw (find, test, entry) refl, more)

  find-long :
      (lut lut16 : Lut F) (inst : Instruction F) (word : ℕ)
      → bit_and word 0x3 ≡ 0x3
      → Weighed inst (lut (pext word hash_mask))
      → Weighed inst (find pext lut lut16 word)
  unfolding find Weighed
  find-long lut lut16 inst word long (best, e, more) = (best, rw (find, long, e) refl, more)

  found :
      (lut lut16 : Lut F) (inst : Instruction F) (word : ℕ)
      → Stored pext bounded selects inst lut lut16
      → bit_and word inst.mask ≡ inst.match
      → OfSize inst word
      → Weighed inst (find pext lut lut16 word)
  unfolding OfSize Stored
  found lut lut16 inst word stored matches (inl (short, low)) =
      find-short lut lut16 inst word low ((stored word matches).0 short)
  found lut lut16 inst word stored matches (inr (long, low)) =
      find-long lut lut16 inst word low ((stored word matches).1 long)

  -- If `_pext_u32` gives a number of as many bits as its mask has ones, and looks at no other bits,
  -- then `build_lut` ends, from empty tables, and for each registered instruction and each word of
  -- its size that matches it the tables give an instruction with at least as many fixed bits.
  pub build_lut-find :
      (instructions : List (Instruction F))
      → (lut : Lut F) × (lut16 : Lut F) × (build_lut pext instructions (λ i. none) (λ i. none)
          ≡ some (lut, lut16))
        × ((inst : Instruction F) (word : ℕ)
            → Among inst instructions
            → bit_and word inst.mask ≡ inst.match
            → OfSize inst word
            → Weighed inst (find pext lut lut16 word))
  build_lut-find instructions =
      let (lut, lut16, done, kept, kept16, stored, new, new16) =
        build_lut-Stored pext bounded selects instructions (λ i. none) (λ i. none) in
      (
        lut,
        lut16,
        done,
        λ inst word place matches sized.
            found lut lut16 inst word (stored inst place) matches sized,
      )
