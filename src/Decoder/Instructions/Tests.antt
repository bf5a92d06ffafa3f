-- ===== src/Decoder/Instructions/Tests.antt =====
-- The whole decoder, with the software version of `_pext_u32`.
use riscv_em.Base.{ℕ, ◌≡◌, bit_and, some}
use riscv_em.Decoder.{Instruction}
use riscv_em.Decoder.Op.{Op}
use riscv_em.Decoder.Table.{Lut}
use riscv_em.Decoder.Table.Origins.{Among}
use riscv_em.Decoder.Cache.{find}
use riscv_em.Decoder.Cache.Registered.{OfSize}
use riscv_em.Decoder.Cache.Tests.{pext32, extract-lt, extract-bit_and, extract-injective}
use riscv_em.Decoder.Instructions.{init_all_instrs}
use riscv_em.Decoder.Instructions.Unique.{all_entries}
use riscv_em.Decoder.Instructions.Exact.{MostSpecific, init_all_instrs-MostSpecific}

init_all_instrs-MostSpecific_example :
    (lut : Lut Op) × (lut16 : Lut Op) × (init_all_instrs pext32 ≡ some (lut, lut16))
    × ((a : Instruction Op) (word : ℕ)
        → Among a all_entries
        → bit_and word a.mask ≡ a.match
        → OfSize a word
        → MostSpecific a word (find pext32 lut lut16 word))
init_all_instrs-MostSpecific_example =
    init_all_instrs-MostSpecific pext32 (extract-lt 32) (extract-bit_and 32) (extract-injective 32)
