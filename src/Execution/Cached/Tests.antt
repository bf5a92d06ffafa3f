-- ===== src/Execution/Cached/Tests.antt =====
-- A cycle of a hart that fetches the word 0 from RAM.
use riscv_em.Base.{none, some, false}
use riscv_em.Hart.{Hart}
use riscv_em.Hart.Samples.{machine_hart}
use riscv_em.Memory.Mmio.Tests.{bus}
use riscv_em.Isa.Compressed.Immediates.{d_c_uimm}
use riscv_em.Decoder.{registered}
use riscv_em.Decoder.Op.{Op}
use riscv_em.Decoder.Table.{Lut}
use riscv_em.Decoder.Cache.{InstructionCache, Cache}
use riscv_em.Decoder.Cache.Sound.{Sound, WaySound}
use riscv_em.Decoder.Cache.Tests.{pext32}
use riscv_em.Execution.{tick}
use riscv_em.Execution.Cached.{tick_cached, decode_tables}
use riscv_em.Execution.Cached.Laws.{Refines, tick_cached-Refines}

abbrev no_entry : Lut Op
no_entry i = none

abbrev addi4spn_entry : Lut Op
addi4spn_entry i = some (registered "000***********00" Op.op_c_addi4spn (some d_c_uimm))

abbrev empty_way : InstructionCache Op
empty_way = record {
  pc = 0;
  inst_raw = 0;
  inst = none;
  decoded = record { inst = 0; rs1 = 0; rs2 = 0; rd = 0; imm = 0 };
  valid = false;
}

abbrev empty_cache : Cache Op
empty_cache i = record { way0 = empty_way; way1 = empty_way; victim = false }

empty_cache-Sound : Sound pext32 no_entry addi4spn_entry empty_cache
unfolding Sound WaySound
empty_cache-Sound i = (λ v. cc, λ v. cc)

abbrev started_hart : Hart
started_hart = record machine_hart { pc = 0x80000000 }

tick_cached-Refines_example :
    Refines
      (Sound pext32 no_entry addi4spn_entry)
      (tick_cached pext32 no_entry addi4spn_entry 0 started_hart bus empty_cache)
      (tick (decode_tables pext32 no_entry addi4spn_entry 0) started_hart bus)
tick_cached-Refines_example =
    tick_cached-Refines pext32 no_entry addi4spn_entry 0 started_hart bus empty_cache
      empty_cache-Sound
