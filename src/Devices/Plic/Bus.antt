-- ===== src/Devices/Plic/Bus.antt =====
-- `PLIC::read` and `PLIC::write` of src/devices/plic.cpp: the registers as the bus sees them.
use riscv_em.Base.{
  ℕ, ◌+◌, ◌-◌, ◌*◌, ◌/◌, ◌%◌, bit_and, u32, sub64, ltb, leb, ◌==◌, if◌then◌else◌, Bool, true, false,
  not, ◌&&◌, Option, none, some, get_elem?, set,
}
use riscv_em.Traps.{MemorySize}
use riscv_em.Devices.Plic.{Plic}
use riscv_em.Devices.Plic.Claim.{
  update_context, update_all_contexts, claim_interrupt, complete_interrupt,
}

abbrev pub is_int : MemorySize → Bool
is_int MemorySize.int = true
is_int _ = false

read_enable : ℕ → Plic → Option ℕ
read_enable offset p =
    let ctx_idx = u32 ((offset - 0x2000) / 0x80) in
    let word_offset = u32 ((offset - 0x2000) % 0x80 / 4) in
    if leb p.num_contexts ctx_idx
    then some 0
    else if ltb word_offset p.enable_words_count
    then elim (get_elem? p.contexts ctx_idx) [
      | none ↦ none
      | some ctx ↦ get_elem? ctx.enables word_offset
    ]
    else some 0

read_context : ℕ → Plic → Option (ℕ × Plic)
read_context offset p =
    let ctx_idx = u32 ((offset - 0x200000) / 0x1000) in
    let sub_offset = u32 ((offset - 0x200000) % 0x1000) in
    if leb p.num_contexts ctx_idx
    then some (0, p)
    else if sub_offset == 0
    then elim (get_elem? p.contexts ctx_idx) [ none ↦ none | some ctx ↦ some (ctx.threshold, p) ]
    else if sub_offset == 4
    then claim_interrupt ctx_idx p
    else some (0, p)

-- A value read changes nothing else.
abbrev keeping : Plic → Option ℕ → Option (ℕ × Plic)
keeping p o = elim o [ none ↦ none | some v ↦ some (v, p) ]

pub read : ℕ → MemorySize → Plic → Option (ℕ × Plic)
read addr size p =
    let offset = sub64 addr p.start in
    let idx = u32 (offset / 4) in
    let word_idx = u32 ((offset - 0x1000) / 4) in
    if not (is_int size)
    then some (0, p)
    else if ltb offset 0x1000
    then if leb 1 idx && leb idx p.max_sources
      then keeping p (get_elem? p.priorities idx)
      else some (0, p)
    else if ltb offset 0x1080
    then if ltb word_idx p.pending_words_count
      then keeping p (get_elem? p.pending_words word_idx)
      else some (0, p)
    else if leb 0x2000 offset && ltb offset 0x200000
    then keeping p (read_enable offset p)
    else if leb 0x200000 offset && ltb offset (u32 (0x200000 + p.num_contexts * 0x1000))
    then read_context offset p
    else some (0, p)

write_enable : ℕ → ℕ → Plic → Option Plic
write_enable offset value p =
    let ctx_idx = u32 ((offset - 0x2000) / 0x80) in
    let word_offset = u32 ((offset - 0x2000) % 0x80 / 4) in
    if leb p.num_contexts ctx_idx
    then some p
    else if ltb word_offset p.enable_words_count
    then elim (get_elem? p.contexts ctx_idx) [
      | none ↦ none
      | some ctx ↦ some (
          update_context ctx_idx (record p {
            contexts =
                set p.contexts ctx_idx
                  (record ctx { enables = set ctx.enables word_offset (u32 value) });
          }))
    ]
    else some p

write_context : ℕ → ℕ → Plic → Option Plic
write_context offset value p =
    let ctx_idx = u32 ((offset - 0x200000) / 0x1000) in
    let sub_offset = u32 ((offset - 0x200000) % 0x1000) in
    if leb p.num_contexts ctx_idx
    then some p
    else if sub_offset == 0
    then elim (get_elem? p.contexts ctx_idx) [
      | none ↦ none
      | some ctx ↦ some (
          update_context ctx_idx (record p {
            contexts =
                set p.contexts ctx_idx (record ctx { threshold = u32 (bit_and value 0x7fffffff) });
          }))
    ]
    else if sub_offset == 4
    then complete_interrupt ctx_idx (u32 value) p
    else some p

pub write : ℕ → MemorySize → ℕ → Plic → Option Plic
write addr size value p =
    let offset = sub64 addr p.start in
    let idx = u32 (offset / 4) in
    if not (is_int size)
    then some p
    else if ltb offset 0x1000
    then if leb 1 idx && leb idx p.max_sources
      then some (
          update_all_contexts
            (record p { priorities = set p.priorities idx (u32 (bit_and value 0x7fffffff)) }))
      else some p
    else if ltb offset 0x1080
    then some p
    else if leb 0x2000 offset && ltb offset 0x200000
    then write_enable offset value p
    else if leb 0x200000 offset && ltb offset (u32 (0x200000 + p.num_contexts * 0x1000))
    then write_context offset value p
    else some p
