-- ===== src/Decoder/Cache/Tests.antt =====
-- The decoder at concrete words, with a software version of `_pext_u32`.
use riscv_em.Base.{
  ℕ, zero, suc, ◌+◌, ◌*◌, ◌/◌, ◌%◌, ◌^◌, ◌<◌, ◌≡◌, ◌⊎◌, refl, sym, ◌∙◌, ◌↔◌, bit_and, ◌==◌,
  if◌then◌else◌, false, [], ◌∷◌, none, some, inl, inr, min, arith,
}
use riscv_em.Base.Bits.{bit_and_digit, bit_and-half, bit_and-zero}
use riscv_em.Base.Fields.{pow-add}
use native.Mathlib.Nat.{pow-suc}
use riscv_em.Isa.{InstructionData}
use riscv_em.Isa.Immediates.{imm_i}
use riscv_em.Decoder.{Instruction, Registry, register_instr}
use Prim.Native.String.{String}
use riscv_em.Decoder.Table.{Lut, popcount, build_lut}
use riscv_em.Decoder.Table.Built.{Weighed}
use riscv_em.Decoder.Table.Origins.{Among}
use riscv_em.Decoder.Cache.{Cache, InstructionCache, decode_inst, fresh, find}
use riscv_em.Decoder.Cache.Sound.{Sound, WaySound, decode_inst-Sound}
use riscv_em.Decoder.Cache.Registered.{OfSize, Fits, register_instr-Agrees, build_lut-find}

-- The bits of `x` under the ones of `m`, side by side.
pub extract : ℕ → ℕ → ℕ → ℕ
extract zero x m = 0
extract (suc w) x m =
    let rest = extract w (x / 2) (m / 2) in if m % 2 == 1 then x % 2 + 2 * rest else rest

pub extract-lt : (w x m : ℕ) → extract w x m < 2 ^ popcount w m
unfolding extract popcount
extract-lt zero x m = omega arith
extract-lt (suc w) x m =
    let p = popcount w (m / 2) in
    let digit : (m % 2 ≡ 1) ⊎ (m % 2 ≡ 0) = omega arith in
    elim digit [
      | inl set ↦ rw set (grind (arith, extract-lt w (x / 2) (m / 2), pow-add 1 p))
      | inr clear ↦ rw clear (grind (arith, extract-lt w (x / 2) (m / 2), pow-add 0 p))
    ]

pub extract-bit_and : (w x m : ℕ) → extract w (bit_and x m) m ≡ extract w x m
unfolding extract
extract-bit_and zero x m = refl
extract-bit_and (suc w) x m =
    let digit : bit_and x m % 2 ≡ min (x % 2) (m % 2) = omega (arith, bit_and_digit x m) in
    rw (bit_and-half x m, extract-bit_and w (x / 2) (m / 2)) (ground (arith, digit))

pub extract-injective :
    (w x y m : ℕ) → m < 2 ^ w → extract w x m ≡ extract w y m → bit_and x m ≡ bit_and y m
unfolding extract
extract-injective zero x y m h e =
    let none_set : m ≡ 0 = omega arith in rw none_set (bit_and-zero x ∙ sym (bit_and-zero y))
extract-injective (suc w) x y m h e =
    let half : m / 2 < 2 ^ w = omega (arith, pow-suc 2 w) in
    let rest = extract-injective w (x / 2) (y / 2) (m / 2) half in
    let digit : (m % 2 ≡ 1) ⊎ (m % 2 ≡ 0) = omega arith in
    elim digit [
      | inl set ↦
          let same : x % 2 + 2 * extract w (x / 2) (m / 2) ≡ y % 2 + 2 * extract w (y / 2) (m / 2) =
            ground (arith, e, set) in
          omega (arith, rest (omega arith), bit_and_digit x m, bit_and_digit y m)
      | inr clear ↦
          let same : extract w (x / 2) (m / 2) ≡ extract w (y / 2) (m / 2) =
            ground (arith, e, clear) in
          omega (arith, rest same, bit_and_digit x m, bit_and_digit y m)
    ]

abbrev addi_entry : Instruction ℕ
addi_entry = record { mask = 0x707f; match = 0x13; func = 0; imm_decode_func = imm_i; size = 4 }

abbrev pub pext32 : ℕ → ℕ → ℕ
pext32 x m = extract 32 x m

build_lut-find_example :
    (lut : Lut ℕ) × (lut16 : Lut ℕ) × (build_lut pext32 (addi_entry ∷ []) (λ i. none) (λ i. none)
      ≡ some (lut, lut16))
    × ((inst : Instruction ℕ) (word : ℕ)
        → Among inst (addi_entry ∷ [])
        → bit_and word inst.mask ≡ inst.match
        → OfSize inst word
        → Weighed inst (find pext32 lut lut16 word))
build_lut-find_example =
    build_lut-find pext32 (extract-lt 32) (extract-bit_and 32) (addi_entry ∷ [])

abbrev none_decoded : InstructionData
none_decoded = record { inst = 0; rs1 = 0; rs2 = 0; rd = 0; imm = 0 }

abbrev empty_way : InstructionCache ℕ
empty_way = record { pc = 0; inst_raw = 0; inst = none; decoded = none_decoded; valid = false }

abbrev empty_cache : Cache ℕ
empty_cache i = record { way0 = empty_way; way1 = empty_way; victim = false }

abbrev one_entry : Lut ℕ
one_entry i = some addi_entry

empty_cache-Sound : Sound pext32 one_entry one_entry empty_cache
unfolding Sound WaySound
empty_cache-Sound i = (λ v. cc, λ v. cc)

decode_inst-Sound_example :
    ((decode_inst pext32 one_entry one_entry 0x80000000 0x13 empty_cache).0
      ≡ fresh pext32 one_entry one_entry 0x80000000 0x13)
    × Sound pext32 one_entry one_entry
        (decode_inst pext32 one_entry one_entry 0x80000000 0x13 empty_cache).1
decode_inst-Sound_example =
    decode_inst-Sound pext32 one_entry one_entry 0x80000000 0x13 empty_cache empty_cache-Sound

abbrev addi_only : Registry ℕ
addi_only = record { instructions = addi_entry ∷ []; global_hash_mask = 0x707f }

abbrev nop16 : String
nop16 = "0000000000000001"

register_instr-Agrees_example :
    (r' : Registry ℕ) × (inst : Instruction ℕ) × (register_instr nop16 7 none addi_only ≡ some r')
    × (r'.instructions ≡ addi_entry ∷ inst ∷ [])
    × (inst.func ≡ 7)
    × ((word : ℕ) → (bit_and word inst.mask ≡ inst.match) ↔ Fits 16 nop16 word)
register_instr-Agrees_example = register_instr-Agrees nop16 7 none addi_only (inl refl)
