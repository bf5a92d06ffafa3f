-- ===== src/Devices/Clint.antt =====
-- src/devices/clint.cpp with include/structs/timer_st.hpp and timecmp_st.hpp: software and timer
-- interrupts. A reading of the host's steady clock, in nanoseconds, is the argument `ns` of an
-- operation, and `later` its second reading; the harts are the machine's list. The calls of `update_mip` from the device's own
-- thread are calls of `update_mip` between two operations.
pub mod Laws
mod Tests
use riscv_em.Base.{
  ℕ, zero, suc, ◌+◌, ◌-◌, ◌*◌, ◌/◌, ◌%◌, ◌^◌, bit_and, u32, u64, sub64, of_bool, nonzero, ltb, leb,
  ◌==◌, if◌then◌else◌, Bool, true, false, not, ◌&&◌, Option, none, some, List, [], ◌∷◌, get_elem?,
  set, replicate,
}
use riscv_em.Hart.{Hart, update}
use riscv_em.Hart.Csr.{csr_time, set_ip_msip, set_ip_mtip, set_ip_stip}
use riscv_em.Memory.{Outcome}

pub record Timer : Type 0 where
  pub begin : ℕ
  pub freq : ℕ

unfoldable pub timer_clocksource : ℕ → ℕ → ℕ
timer_clocksource ns freq = u64 (ns * freq) / 1000000000

unfoldable pub timer_get : ℕ → Timer → ℕ
timer_get ns t = sub64 (timer_clocksource ns t.freq) t.begin

pub timer_set : ℕ → ℕ → Timer → Timer
timer_set ns time t = record t { begin = sub64 (timer_clocksource ns t.freq) time }

pub timer_init : ℕ → ℕ → Timer
timer_init ns freq = timer_set ns 0 (record { begin = 0; freq = freq })

-- A comparator is its value: every comparator of the machine has the one timer.
pub record Clint : Type 0 where
  pub start : ℕ
  pub msip : List ℕ
  pub mtimecmp : List ℕ
  pub mtime : Timer

abbrev pub never : ℕ
never = 2 ^ 64 - 1

pub init_harts : List Hart → List Hart
init_harts [] = []
init_harts (h ∷ harts) = record h { stimecmp = never } ∷ init_harts harts

-- The constructor, without the device tree.
pub init : ℕ → ℕ → ℕ → ℕ → List Hart → Clint × List Hart
init ns start harts_count timebase harts = (
  record {
    start = start;
    msip = replicate harts_count 0;
    mtimecmp = replicate harts_count never;
    mtime = timer_init ns timebase;
  },
  init_harts harts,
)

-- The three bits that the loop body gives to a hart.
pub set_pending_bits : ℕ → ℕ → ℕ → Hart → Hart
set_pending_bits now sip cmp h =
    let sw = set_ip_msip (of_bool (nonzero (bit_and sip 1))) h.ip in
    let mt = set_ip_mtip (of_bool (leb cmp now)) sw in
    record h {
      csrs = update h.csrs csr_time now;
      ip = set_ip_stip (of_bool (leb h.stimecmp now && not (h.stimecmp == never))) mt;
    }

pub update_hart : ℕ → Clint → Hart → Outcome Hart
update_hart now c h = elim (get_elem? c.msip h.id) [
  | none ↦ Outcome.undefined
  | some sip ↦ elim (get_elem? c.mtimecmp h.id) [
    | none ↦ Outcome.undefined
    | some cmp ↦ Outcome.done (set_pending_bits now sip cmp h)
  ]
]

pub cons_hart : Outcome Hart → Outcome (List Hart) → Outcome (List Hart)
cons_hart (Outcome.done h) (Outcome.done harts) = Outcome.done (h ∷ harts)
cons_hart _ _ = Outcome.undefined

-- The loop over the harts.
pub update_harts : ℕ → Clint → List Hart → Outcome (List Hart)
update_harts now c [] = Outcome.done []
update_harts now c (h ∷ harts) = cons_hart (update_hart now c h) (update_harts now c harts)

pub update_mip : ℕ → Clint → List Hart → Outcome (List Hart)
update_mip ns c harts = update_harts (timer_get ns c.mtime) c harts

pub read_mswi : ℕ → Clint → Outcome ℕ
read_mswi offset c = elim (get_elem? c.msip (offset / 2 ^ 2)) [
  | some v ↦ Outcome.done v
  | none ↦ Outcome.undefined
]

pub read_mtimer : ℕ → ℕ → Clint → Outcome ℕ
read_mtimer ns offset c =
    if offset == 0x7ff8
    then Outcome.done (timer_get ns c.mtime)
    else elim (get_elem? c.mtimecmp (offset / 2 ^ 3)) [
      | some v ↦ Outcome.done v
      | none ↦ Outcome.undefined
    ]

-- The size of the access plays no part.
pub read : ℕ → ℕ → Clint → Outcome ℕ
read ns addr c =
    let off = sub64 addr c.start in
    if ltb off 0x4000
    then read_mswi off c
    else if leb 0x4000 off && ltb off (0x4000 + 0x8000)
    then read_mtimer ns (off - 0x4000) c
    else Outcome.done 0

-- The state with the harts after `update_mip`.
pub updated : ℕ → Clint → List Hart → Outcome (Clint × List Hart)
updated ns c harts = elim (update_mip ns c harts) [
  | Outcome.done hs ↦ Outcome.done (c, hs)
  | Outcome.throws ↦ Outcome.throws
  | Outcome.undefined ↦ Outcome.undefined
]

pub write_mswi : ℕ → ℕ → ℕ → Clint → List Hart → Outcome (Clint × List Hart)
write_mswi later offset value c harts = elim (get_elem? c.msip (offset / 2 ^ 2)) [
  | none ↦ Outcome.undefined
  | some old ↦ updated later (record c { msip = set c.msip (offset / 2 ^ 2) (u32 value) }) harts
]

pub write_mtimer : ℕ → ℕ → ℕ → ℕ → Clint → List Hart → Outcome (Clint × List Hart)
write_mtimer ns later offset value c harts =
    if offset == 0x7ff8
    then updated later (record c { mtime = timer_set ns value c.mtime }) harts
    else elim (get_elem? c.mtimecmp (offset / 2 ^ 3)) [
      | none ↦ Outcome.undefined
      | some old ↦
          updated later (record c { mtimecmp = set c.mtimecmp (offset / 2 ^ 3) value }) harts
    ]

pub write : ℕ → ℕ → ℕ → ℕ → Clint → List Hart → Outcome (Clint × List Hart)
write ns later addr value c harts =
    let off = sub64 addr c.start in
    if ltb off 0x4000
    then write_mswi later off value c harts
    else if leb 0x4000 off && ltb off (0x4000 + 0x8000)
    then write_mtimer ns later (off - 0x4000) value c harts
    else Outcome.done (c, harts)
